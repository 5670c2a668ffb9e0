-- ===== src/Connection/Conserve/Steps.antt =====
-- The steps of a connection, and where a chunk is before and after each.
use mathlib.Core.Path.{subst}
use directswarm.Base.{
  ℕ, ◌≡◌, ◌≢◌, refl, ap, sym, ◌∙◌, ◌⊎◌, inl, inr, Bool, not, ◌&&◌, [], ◌∷◌, Option, none, some, ltb,
  ◌==◌, arith, nat_eq, ==_iff, In, In-append, Bool-cases, lookup_or, bytes_eq,
}
use directswarm.Swarm.{SwarmAddress}
use directswarm.Cheque.{emit_settlement_cheque}
use directswarm.Dispatch.{Pool, pop}
use directswarm.Dispatch.Popping.{pop_lem}
use directswarm.Connection.{
  Shared, Conn, At, head, hung_up, admitting, reaping, refreshing, settling, prepaying, emitting,
  closing, returned, Drive, Turn, State, goto, tasks_len,
}
use directswarm.Connection.Loop.{
  take_work, try_work, admit_next, reap, finish_refresh, settle, order, prepaid_result, debt_result,
  close, advance,
}
use directswarm.Connection.Conserve.{
  Queued, Covered, Covered-places, reap-places, finish_refresh-places, settle-places,
  prepaid_result-places, debt_result-places, close-places, begin-Covered, give_up-Covered,
  consider-Covered, if-Covered,
}

-- A chunk of a bucket is still in it after a pop, or it was given out.
pop-Queued :
    (pool : Pool) (p : ℕ) (a : SwarmAddress)
    → Queued a pool
    → Queued a (pop pool p).0 ⊎ ((pop pool p).1 ≡ some a)
pop-Queued pool p a (q, m) = elim (pop_lem pool p) [
  | inl (e, empty, same) ↦ inl (q, subst (In a) (sym (same q)) m)
  | inr (addr, e, split, count, other) ↦ elim (Bool-cases (p == q)) [
    | inl same ↦
        let eq = (==_iff p q).0 same in
        elim (In-append a (lookup_or [] p (pop pool p).0) (addr ∷ [])
          (subst (In a) split (subst (λ x. In a (lookup_or [] x pool)) (sym eq) m))) [
            | inl stays ↦ inl (p, stays)
            | inr (inl given) ↦ inr (e ∙ ap some (sym given))
            | inr (inr nothing) ↦ absurd nothing
          ]
    | inr differs ↦
        let ne : p ≢ q = λ eq. absurd (ground (arith, ==_iff p q)) in
        inl (q, subst (In a) (sym (other q ne)) m)
  ]
]

popped-Covered :
    (c : Conn) (a : SwarmAddress) (g : Shared) (d : Drive)
    → Covered a (g, d)
    → Covered a (record g { pool = (pop g.pool c.prefix).0 }, d)
      ⊎ ((pop g.pool c.prefix).1 ≡ some a)
popped-Covered c a g d (inl (inl q)) = elim (pop-Queued g.pool c.prefix a q) [
  | inl stays ↦ inl (inl (inl stays))
  | inr given ↦ inr given
]
popped-Covered c a g d (inl (inr k)) = inl (inl (inr k))
popped-Covered c a g d (inr h) = inl (inr h)

try_work-Covered :
    (c : Conn) (now : ℕ) (a : SwarmAddress) (g : Shared) (d : Drive)
    → Covered a (g, d)
    → Covered a (try_work c now (take_work c (g, d)))
try_work-Covered c now a g d h = held d.pending refl
  where
    popped :
        (o : Option SwarmAddress)
        → (pop g.pool c.prefix).1 ≡ o
        → d.pending ≡ none
        → Covered a (try_work c now ((record g { pool = (pop g.pool c.prefix).0 }, d), o))
    popped none e p = elim (popped-Covered c a g d h) [
      | inl stays ↦ stays
      | inr given ↦ absurd (cc)
    ]
    popped (some addr) e p =
        consider-Covered c now addr a (record g { pool = (pop g.pool c.prefix).0 }) d
          (elim (popped-Covered c a g d h) [ inl stays ↦ inl stays | inr given ↦ inr (cc) ]) p

    waiting :
        (addr : SwarmAddress)
        → d.pending ≡ some addr
        → Covered a (g, d)
        → Covered a (g, record d { pending = none }) ⊎ (a ≡ addr)
    waiting addr p (inl k) = inl (inl k)
    waiting addr p (inr (inl e)) = inr (cc)
    waiting addr p (inr (inr m)) = inl (inr (inr m))

    held :
        (o : Option SwarmAddress) → d.pending ≡ o → Covered a (try_work c now (take_work c (g, d)))
    held (some addr) p =
        rw p (consider-Covered c now addr a g (record d { pending = none }) (waiting addr p h) refl)
    held none p = rw p (popped (pop g.pool c.prefix).1 refl p)

admit_next-Covered :
    (c : Conn) (now : ℕ) (halted : Bool) (a : SwarmAddress) (s : State)
    → Covered a s
    → Covered a (admit_next c now halted s)
unfolding admit_next
admit_next-Covered c now halted a (g, d) h =
    if-Covered a (not d.finishing && not halted && ltb (tasks_len d) c.pipeline)
      (try_work c now (take_work c (g, d))) (goto (reaping halted) (g, d))
      (try_work-Covered c now a g d h) h

pub advance-Covered :
    (c : Conn) (t : Turn) (a : SwarmAddress) (s : State) → Covered a s → Covered a (advance c t s)
unfolding advance
advance-Covered c t a (g, d) h = go d.at refl
  where
    go : (x : At) → d.at ≡ x → Covered a (advance c t (g, d))
    go head e = rw (e, advance) (begin-Covered c a (g, d) h)
    go hung_up e = rw (e, advance) (give_up-Covered a (g, d) h)
    go (admitting halted) e = rw (e, advance) (admit_next-Covered c t.now halted a (g, d) h)
    go (reaping halted) e =
        rw (e, advance)
          (Covered-places a (g, d) (reap t.now halted (g, d)) (reap-places t.now halted (g, d)) h)
    go (refreshing halted) e =
        rw (e, advance)
          (Covered-places a (g, d) (finish_refresh t.now t.reply halted (g, d))
            (finish_refresh-places t.now t.reply halted (g, d)) h)
    go (settling halted) e =
        rw (e, advance)
          (Covered-places a (g, d) (settle c t.now halted (g, d))
            (settle-places c t.now halted (g, d)) h)
    go (prepaying halted units) e =
        rw (e, advance)
          (Covered-places a (g, d)
            (prepaid_result t halted units (g, d)
              (emit_settlement_cheque (order c units) t.peer g.books))
            (prepaid_result-places t halted units (g, d)
              (emit_settlement_cheque (order c units) t.peer g.books))
            h)
    go (emitting halted units) e =
        rw (e, advance)
          (Covered-places a (g, d)
            (debt_result t halted units (g, d)
              (emit_settlement_cheque (order c units) t.peer g.books))
            (debt_result-places t halted units (g, d)
              (emit_settlement_cheque (order c units) t.peer g.books))
            h)
    go (closing halted) e =
        rw (e, advance)
          (Covered-places a (g, d) (close halted (g, d)) (close-places halted (g, d)) h)
    go (returned residual) e = rw (e, advance) h
