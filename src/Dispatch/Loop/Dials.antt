-- ===== src/Dispatch/Loop/Dials.antt =====
-- The dials of the dispatch loop, and its window.
use mathlib.Core.Path.{subst}
use directswarm.Base.{
  ℕ, zero, suc, ◌+◌, ◌*◌, ◌≤◌, ◌≡◌, refl, List, [], ◌∷◌, ◌++◌, Option, none, some, arith,
  if◌then◌else◌, ◌==◌, ==_iff, length, All, All-append, keys, ltb, Bool-cases, inl, inr, lookup_or,
  lookup, lookup_or-cons, nat_eq,
}
use directswarm.Dispatch.{
  Member, Pool, Dispatch, fresh_dispatch, unused, dialled, rounds, recycle, recycle_all, refill,
  best_of, dial, dial_best, refilled, next_member, done,
}
use directswarm.Dispatch.Bound.{
  potential, Tagged, hits, unused-recycle, dialled-recycle, unused-dial, dialled-dial,
  refilled-potential, dial-potential,
}
use directswarm.Dispatch.Loop.{
  Loop, Event, fills, joins, panics, take_out, with_one, report_done, turn, serve, begin,
}

abbrev pub count : ℕ → List Member → ℕ
count p [] = 0
count p (m ∷ ms) = (if m.0.prefix == p then 1 else 0) + count p ms

abbrev pub Of : ℕ → Member → Type 0
Of p m = m.0.prefix ≡ p

-- What is stored under one key is what the map held there, or the new list.
at_key :
    (q p : ℕ) (v w : List Member)
    → All (Of q) v
    → All (Of p) w
    → All (Of p) (if q == p then v else w)
at_key q p v w hv hw = elim (Bool-cases (q == p)) [
  | inl same ↦ rw same (subst (λ k. All (Of k) v) ((==_iff q p).0 same) hv)
  | inr other ↦ rw other hw
]

recycle-Tagged : (d : Dispatch) (q : ℕ) → Tagged d → Tagged (recycle d q)
recycle-Tagged d q h p =
    rw (unused-recycle d q p, dialled-recycle d q p)
      (
        at_key q p (dialled d q) (unused d p) (h q).1 (h p).0,
        at_key q p [] (dialled d p) tt (h p).1,
      )

pub recycle_all-Tagged : (d : Dispatch) (qs : List ℕ) → Tagged d → Tagged (recycle_all d qs)
recycle_all-Tagged d [] h = h
recycle_all-Tagged d (q ∷ qs) h = recycle_all-Tagged (recycle d q) qs (recycle-Tagged d q h)

dial-Tagged :
    (d : Dispatch) (q : ℕ) (v : List Member) → All (Of q) v → Tagged d → Tagged (dial d q v).0
dial-Tagged d q [] hv h p = unfold dial in h p
dial-Tagged d q (m ∷ rest) (hm, hr) h p =
    rw (unused-dial d q p m rest, dialled-dial d q p m rest)
      (
        at_key q p rest (unused d p) hr (h p).0,
        at_key q p (dialled d q ++ m ∷ []) (dialled d p)
            (All-append (Of q) (dialled d q) (m ∷ []) (h q).1 (hm, tt)) (h p).1,
      )

pub dial_best-Tagged :
    (d : Dispatch) (best : Option (ℕ × ℕ)) → Tagged d → Tagged (dial_best d best).0
dial_best-Tagged d none h = h
dial_best-Tagged d (some (crit, q)) h = dial-Tagged d q (unused d q) (h q).0 h

dial_best-potential :
    (d : Dispatch) (best : Option (ℕ × ℕ)) (p : ℕ)
    → Tagged d
    → potential (dial_best d best).0 p + hits p (dial_best d best).1 ≡ potential d p
dial_best-potential d none p h = omega arith
dial_best-potential d (some (crit, q)) p h = dial-potential d q p (unused d q) refl (h q).0

module _ (pool : Pool) (d : Dispatch) (h : Tagged d) where
  next_member-Tagged : Tagged (next_member pool d).0
  unfolding next_member
  next_member-Tagged =
      dial_best-Tagged (refilled pool d)
        (best_of pool (refilled pool d) none (keys (refilled pool d).cands))
        (recycle_all-Tagged d (refill pool d) h)

  next_member-potential :
      (p : ℕ) → potential (next_member pool d).0 p + hits p (next_member pool d).1 ≤ potential d p
  unfolding next_member
  next_member-potential p = omega (
    arith,
    refilled-potential pool d p,
    dial_best-potential (refilled pool d)
        (best_of pool (refilled pool d) none (keys (refilled pool d).cands)) p
        (recycle_all-Tagged d (refill pool d) h),
  )

-- An event adds one to a bucket's dials only by taking one from what the bucket has left.
turn-potential :
    (window : ℕ) (e : Event) (l : Loop) (p : ℕ)
    → Tagged l.dispatch
    → potential (turn window e l).0.dispatch p + hits p (turn window e l).1 ≤ potential l.dispatch p
unfolding turn
turn-potential window (fills pool) l p h = ground (arith, next_member-potential pool l.dispatch h p)
turn-potential window (joins i) l p h =
    omega (arith, done-potential l.dispatch (take_out i l.inflight).0)
  where
    done-potential :
        (d : Dispatch) (r : Option Member) → potential (report_done d r) p ≡ potential d p
    done-potential d none = refl
    done-potential d (some m) = unfold done unused dialled rounds in refl
turn-potential window (panics i) l p h = omega arith

pub turn-Tagged :
    (window : ℕ) (e : Event) (l : Loop) → Tagged l.dispatch → Tagged (turn window e l).0.dispatch
unfolding turn
turn-Tagged window (fills pool) l h = elim (Bool-cases (ltb (length l.inflight) window)) [
  | inl free ↦ rw free (next_member-Tagged pool l.dispatch h)
  | inr full ↦ rw full h
]
turn-Tagged window (joins i) l h = done-Tagged l.dispatch (take_out i l.inflight).0 h
  where
    done-Tagged : (d : Dispatch) (r : Option Member) → Tagged d → Tagged (report_done d r)
    done-Tagged d none t p = t p
    done-Tagged d (some m) t p = unfold done unused dialled in t p
turn-Tagged window (panics i) l h = h

length-take_out : (i : ℕ) (ms : List Member) → length (take_out i ms).1 ≤ length ms
length-take_out i [] = omega arith
length-take_out zero (m ∷ ms) = omega arith
length-take_out (suc i) (m ∷ ms) = omega (arith, length-take_out i ms)

length-with_one : (r : Option Member) (ms : List Member) → length (with_one r ms) ≤ length ms + 1
length-with_one none ms = omega arith
length-with_one (some m) ms = omega arith

turn-window :
    (window : ℕ) (e : Event) (l : Loop)
    → length l.inflight ≤ window
    → length (turn window e l).0.inflight ≤ window
unfolding turn
turn-window window (fills pool) l h =
    ground (arith, length-with_one (next_member pool l.dispatch).1 l.inflight)
turn-window window (joins i) l h = omega (arith, length-take_out i l.inflight)
turn-window window (panics i) l h = omega (arith, length-take_out i l.inflight)

pub count-with_one :
    (p : ℕ) (r : Option Member) (ms : List Member) → count p (with_one r ms) ≡ hits p r + count p ms
count-with_one p none ms = omega arith
count-with_one p (some m) ms = omega arith

serve-potential :
    (window : ℕ) (events : List Event) (l : Loop) (p : ℕ)
    → Tagged l.dispatch
    → count p (serve window events l).1 ≤ potential l.dispatch p
serve-potential window [] l p h = omega arith
serve-potential window (e ∷ events) l p h =
    let one = turn window e l in
    omega (
      arith,
      count-with_one p one.1 (serve window events one.0).1,
      turn-potential window e l p h,
      serve-potential window events one.0 p (turn-Tagged window e l h),
    )

serve-window :
    (window : ℕ) (events : List Event) (l : Loop)
    → length l.inflight ≤ window
    → length (serve window events l).0.inflight ≤ window
serve-window window [] l h = h
serve-window window (e ∷ events) l h =
    serve-window window events (turn window e l).0 (turn-window window e l h)

lookup_or-Of :
    (cands : List (ℕ × List Member)) (p : ℕ)
    → All (λ (x : ℕ × List Member). All (Of x.0) x.1) cands
    → All (Of p) (lookup_or [] p cands)
lookup_or-Of [] p h = unfold lookup_or lookup in tt
lookup_or-Of ((q, v) ∷ rest) p (hv, h) =
    rw (lookup_or-cons [] q p v rest)
      (at_key q p v (lookup_or [] p rest) hv (lookup_or-Of rest p h))

pub begin-Tagged :
    (cands : List (ℕ × List Member))
    → All (λ (x : ℕ × List Member). All (Of x.0) x.1) cands
    → Tagged (fresh_dispatch cands)
unfolding fresh_dispatch unused dialled lookup_or lookup
begin-Tagged cands h q = (lookup_or-Of cands q h, tt)

-- Whatever the pool holds at each moment, and however connections end: the loop never has more than
-- the window's connections open, and it dials into each bucket at most four times as often as the
-- bucket has candidates.
pub serve-dials :
    (window : ℕ) (events : List Event) (cands : List (ℕ × List Member)) (p : ℕ)
    → All (λ (x : ℕ × List Member). All (λ (m : Member). m.0.prefix ≡ x.0) x.1) cands
    → (length (serve window events (begin cands)).0.inflight ≤ window)
      × (count p (serve window events (begin cands)).1 ≤ 4 * length (lookup_or [] p cands))
serve-dials window events cands p h = (
  serve-window window events (begin cands) (omega arith),
  omega (arith, serve-potential window events (begin cands) p (begin-Tagged cands h), at_start),
)
  where
    at_start : potential (fresh_dispatch cands) p ≡ 4 * length (lookup_or [] p cands)
    at_start = unfold fresh_dispatch unused dialled rounds lookup_or lookup in omega arith
