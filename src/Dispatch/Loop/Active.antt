-- ===== src/Dispatch/Loop/Active.antt =====
-- The dispatcher's count of active members against the connections that are open.
use directswarm.Base.{
  ℕ, zero, suc, ◌+◌, ◌-◌, ◌≡◌, refl, ap, sym, ◌∙◌, List, [], ◌∷◌, Option, none, some, arith,
  if◌then◌else◌, ◌==◌, ==_iff, length, All, lookup, insert, lookup-insert, lookup_or-insert, nat_eq,
  keys, ltb, Bool-cases, inl, inr, lookup_or, lookup, nat_eq,
}
use directswarm.Dispatch.{
  Member, Pool, Dispatch, fresh_dispatch, unused, recycle, recycle_all, refill, best_of, dial,
  dial_best, refilled, next_member, done, modify,
}
use directswarm.Dispatch.Bound.{Tagged, hits}
use directswarm.Dispatch.Loop.{
  Loop, Event, fills, joins, panics, take_out, with_one, report_done, turn, serve, begin,
}
use directswarm.Dispatch.Loop.Dials.{
  count, Of, recycle_all-Tagged, turn-Tagged, count-with_one, begin-Tagged,
}

-- What a panic takes out of the connections that are open.
abbrev pub lost : Event → Loop → Option Member
lost (fills pool) l = none
lost (joins i) l = none
lost (panics i) l = (take_out i l.inflight).0

abbrev pub lost_all : ℕ → List Event → Loop → List Member
lost_all window [] l = []
lost_all window (e ∷ events) l = with_one (lost e l) (lost_all window events (turn window e l).0)

unfoldable pub active : Dispatch → ℕ → ℕ
active d p = lookup_or 0 p d.active_n

recycle_all-active : (d : Dispatch) (qs : List ℕ) (p : ℕ) → active (recycle_all d qs) p ≡ active d p
recycle_all-active d [] p = refl
recycle_all-active d (q ∷ qs) p = recycle_all-active (recycle d q) qs p ∙ one
  where
    one : active (recycle d q) p ≡ active d p
    one = unfold recycle active in refl

dial-active :
    (d : Dispatch) (q p : ℕ) (v : List Member)
    → All (Of q) v
    → active (dial d q v).0 p ≡ active d p + hits p (dial d q v).1
dial-active d q p [] h = unfold dial in omega arith
dial-active d q p (m ∷ rest) (tag, h) =
    raised ∙ ap (λ k. active d p + k) (ap (λ k. if k == p then 1 else 0) (sym tag)) ∙ chosen
  where
    raised : active (dial d q (m ∷ rest)).0 p ≡ active d p + (if q == p then 1 else 0)
    raised =
        unfold dial active in
        ground (arith, ==_iff q p, lookup_or-insert 0 q p (lookup_or 0 q d.active_n + 1) d.active_n)

    chosen : active d p + hits p (some m) ≡ active d p + hits p (dial d q (m ∷ rest)).1
    chosen = unfold dial in refl

dial_best-active :
    (d : Dispatch) (best : Option (ℕ × ℕ)) (p : ℕ)
    → Tagged d
    → active (dial_best d best).0 p ≡ active d p + hits p (dial_best d best).1
dial_best-active d none p h = omega arith
dial_best-active d (some (crit, q)) p h = dial-active d q p (unused d q) (h q).0

next_member-active :
    (pool : Pool) (d : Dispatch) (p : ℕ)
    → Tagged d
    → active (next_member pool d).0 p ≡ active d p + hits p (next_member pool d).1
unfolding next_member
next_member-active pool d p h =
    dial_best-active (refilled pool d)
      (best_of pool (refilled pool d) none (keys (refilled pool d).cands)) p
      (recycle_all-Tagged d (refill pool d) h)
    ∙ ap (λ n. n + hits p (next_member pool d).1) (recycle_all-active d (refill pool d) p)

lookup_or-modify :
    (f : ℕ → ℕ) (q p : ℕ) (m : List (ℕ × ℕ))
    → f 0 ≡ 0
    → lookup_or 0 p (modify f q m) ≡ (if q == p then f (lookup_or 0 p m) else lookup_or 0 p m)
unfolding lookup_or
lookup_or-modify f q p m z = go (lookup q m) refl
  where
    go :
        (o : Option ℕ)
        → lookup q m ≡ o
        → lookup_or 0 p (elim o [ none ↦ m | some n ↦ insert q (f n) m ])
          ≡ (if q == p then f (lookup_or 0 p m) else lookup_or 0 p m)
    go none e = elim (Bool-cases (q == p)) [
      | inl same ↦
          let k : q ≡ p = (==_iff q p).0 same in
          let nothing : lookup p m ≡ none = rw k at e in rw same (ground (arith, nothing, z))
      | inr other ↦ rw other refl
    ]
    go (some n) e = elim (Bool-cases (q == p)) [
      | inl same ↦
          let k : q ≡ p = (==_iff q p).0 same in
          let found : lookup p m ≡ some n = rw k at e in
          rw same (ground (arith, found, same, lookup-insert q p (f n) m))
      | inr other ↦ rw other (ground (arith, other, lookup-insert q p (f n) m))
    ]

done-active :
    (d : Dispatch) (q p rate : ℕ)
    → active (done d q rate) p ≡ (if q == p then active d p - 1 else active d p)
unfolding done active
done-active d q p rate = lookup_or-modify (λ n. n - 1) q p d.active_n (omega arith)

-- Taking a member out and counting it apart changes no sum.
count-take_out :
    (p i : ℕ) (ms : List Member) → count p ms ≡ hits p (take_out i ms).0 + count p (take_out i ms).1
count-take_out p i [] = omega arith
count-take_out p zero (m ∷ ms) = omega arith
count-take_out p (suc i) (m ∷ ms) = omega (arith, count-take_out p i ms)

report_done-active :
    (d : Dispatch) (r : Option Member) (p : ℕ) → active (report_done d r) p ≡ active d p - hits p r
report_done-active d none p = omega arith
report_done-active d (some m) p = ground (arith, done-active d m.0.prefix p m.1)

-- What a step adds to the count of active members is what it adds to the connections and the
-- losses.
turn-active :
    (window : ℕ) (e : Event) (l : Loop) (p before : ℕ)
    → Tagged l.dispatch
    → active l.dispatch p ≡ count p l.inflight + before
    → active (turn window e l).0.dispatch p
      ≡ count p (turn window e l).0.inflight + (hits p (lost e l) + before)
unfolding turn
turn-active window (fills pool) l p before t h =
    elim (Bool-cases (ltb (length l.inflight) window)) [
      | inl free ↦ rw free (
          omega (
            arith,
            next_member-active pool l.dispatch p t,
            count-with_one p (next_member pool l.dispatch).1 l.inflight,
          ))
      | inr full ↦ rw full (omega (arith, h))
    ]
turn-active window (joins i) l p before t h = omega (
  arith,
  report_done-active l.dispatch (take_out i l.inflight).0 p,
  count-take_out p i l.inflight,
)
turn-active window (panics i) l p before t h = omega (arith, count-take_out p i l.inflight)

serve-active_from :
    (window : ℕ) (events : List Event) (l : Loop) (p before : ℕ)
    → Tagged l.dispatch
    → active l.dispatch p ≡ count p l.inflight + before
    → active (serve window events l).0.dispatch p
      ≡ count p (serve window events l).0.inflight + (count p (lost_all window events l) + before)
serve-active_from window [] l p before t h = omega (arith, h)
serve-active_from window (e ∷ events) l p before t h =
    let one = turn window e l in
    omega (
      arith,
      serve-active_from window events one.0 p (hits p (lost e l) + before)
          (turn-Tagged window e l t) (turn-active window e l p before t h),
      count-with_one p (lost e l) (lost_all window events one.0),
    )

-- Whatever the pool holds at each moment, and in any order of fillings, ends and panics: a bucket's
-- count of active members is the number of its connections that are open plus the number of those
-- whose task panicked, which stay counted for ever.
pub serve-active :
    (window : ℕ) (events : List Event) (cands : List (ℕ × List Member)) (p : ℕ)
    → All (λ (x : ℕ × List Member). All (λ (m : Member). m.0.prefix ≡ x.0) x.1) cands
    → lookup_or 0 p (serve window events (begin cands)).0.dispatch.active_n
      ≡ count p (serve window events (begin cands)).0.inflight
        + count p (lost_all window events (begin cands))
unfolding active fresh_dispatch lookup_or lookup
serve-active window events cands p h =
    omega (
      arith,
      serve-active_from window events (begin cands) p 0 (begin-Tagged cands h) (omega arith),
    )
