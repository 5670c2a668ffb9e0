-- ===== src/Connection/Conserve.antt =====
-- Where a chunk of the work pool is before and after what the steps of `drive` do.
pub mod Steps
pub mod Tasks
pub mod World
use mathlib.Core.Path.{subst}
use directswarm.Base.{
  ℕ, zero, suc, ◌+◌, ◌≤◌, ◌≡◌, ◌≢◌, refl, ap, sym, ◌∙◌, ◌⊎◌, inl, inr, Bool, true, false, not, ◌&&◌,
  ◌||◌, List, [], ◌∷◌, ◌++◌, Option, none, some, ltb, ◌==◌, if◌then◌else◌, arith, nat_eq, ==_iff,
  length, is_empty, In, In-append, In-append_left, In-append_right, Bool-cases, Option-cases,
  lookup_or, lookup, lookup-insert, insert, contains_key, bytes_eq, bytes_beq, bytes_beq_iff, max,
  u32_max,
}
use directswarm.Base.Results.{Result, ok, err}
use directswarm.Swarm.{SwarmAddress}
use directswarm.Wire.{Bytes}
use directswarm.Hex.{HexCrate}
use directswarm.Pacer.{Pacer, admit}
use directswarm.Cheque.{Error, Books, Outcome, emit_settlement_cheque}
use directswarm.ChunkStore.{
  Store, Write, whole, torn, contains, put, put_index, flush_locked, flush_every,
}
use directswarm.Dispatch.{Pool, pop, remaining}
use directswarm.Dispatch.Popping.{Gives, pop_lem}
use directswarm.Connection.{
  Shared, Conn, At, head, hung_up, admitting, reaping, refreshing, settling, prepaying, emitting,
  closing, returned, Drive, Turn, State, goto, unpaid, due, shed, shed_from,
}
use directswarm.Connection.Loop.{
  near_cap, begin, give_up, consider, take_work, try_work, admit_next, reap, finish_refresh, settle,
  order, prepaid_result, sweep_failed, debt_result, close, advance,
}
use directswarm.Connection.Events.{take_at, landed, finish_task}

-- In a bucket of the pool.
abbrev pub Queued : SwarmAddress → Pool → Type 0
Queued a pool = (p : ℕ) × In a (lookup_or [] p pool)

-- Where the shared state keeps a chunk: in the pool, in the fallback channel, in the store.
abbrev pub Kept : SwarmAddress → Shared → Type 0
Kept a g = Queued a g.pool ⊎ In a g.fallback ⊎ (contains g.store a ≡ true)

abbrev pub targets : List (SwarmAddress × ℕ) → List SwarmAddress
targets [] = []
targets ((addr, price) ∷ rest) = addr ∷ targets rest

-- A connection holds a chunk: it waits for the gate, or a task fetches it.
abbrev pub Held : SwarmAddress → Drive → Type 0
Held a d = (d.pending ≡ some a) ⊎ In a (targets d.running)

abbrev pub Covered : SwarmAddress → State → Type 0
Covered a (g, d) = Kept a g ⊎ Held a d

-- The parts of a state that say where the chunks are.
abbrev Places : Type 0
Places = Pool × (List SwarmAddress × Store) × (Option SwarmAddress × List (SwarmAddress × ℕ))

abbrev places : State → Places
places (g, d) = (g.pool, (g.fallback, g.store), (d.pending, d.running))

pub Covered-places :
    (a : SwarmAddress) (s s' : State) → places s' ≡ places s → Covered a s → Covered a s'
Covered-places a s s' e h = subst (λ p. At_places p) (sym e) h
  where
    At_places : Places → Type 0
    At_places (pool, (fallback, store), (pending, running)) =
        (Queued a pool ⊎ In a fallback ⊎ (contains store a ≡ true))
        ⊎ ((pending ≡ some a) ⊎ In a (targets running))

targets-append :
    (a : SwarmAddress) (xs : List (SwarmAddress × ℕ)) (addr : SwarmAddress) (price : ℕ)
    → In a (targets xs) ⊎ (a ≡ addr)
    → In a (targets (xs ++ (addr, price) ∷ []))
targets-append a [] addr price (inl m) = absurd m
targets-append a [] addr price (inr e) = inl e
targets-append a ((x, p) ∷ xs) addr price (inl (inl e)) = inl e
targets-append a ((x, p) ∷ xs) addr price (inl (inr m)) =
    inr (targets-append a xs addr price (inl m))
targets-append a ((x, p) ∷ xs) addr price (inr e) = inr (targets-append a xs addr price (inr e))

pub reap-places : (now : ℕ) (halted : Bool) (s : State) → places (reap now halted s) ≡ places s
unfolding reap
reap-places now halted (g, d) = ground arith

pub finish_refresh-places :
    (now : ℕ) (reply : Option ℕ) (halted : Bool) (s : State)
    → places (finish_refresh now reply halted s) ≡ places s
unfolding finish_refresh
finish_refresh-places now reply halted (g, d) = refl

pub settle-places :
    (c : Conn) (now : ℕ) (halted : Bool) (s : State) → places (settle c now halted s) ≡ places s
unfolding settle
settle-places c now halted (g, d) = ground arith

pub prepaid_result-places :
    (t : Turn) (halted : Bool) (units : ℕ) (s : State) (r : Books × Result Error Outcome)
    → places (prepaid_result t halted units s r) ≡ places s
unfolding prepaid_result
prepaid_result-places t halted units (g, d) r = ground arith

pub debt_result-places :
    (t : Turn) (halted : Bool) (units : ℕ) (s : State) (r : Books × Result Error Outcome)
    → places (debt_result t halted units s r) ≡ places s
unfolding debt_result sweep_failed
debt_result-places t halted units (g, d) r = ground arith

pub close-places : (halted : Bool) (s : State) → places (close halted s) ≡ places s
unfolding close
close-places halted (g, d) = ground arith

shed-Covered : (a : SwarmAddress) (s : State) → Covered a s → Covered a (shed s)
shed-Covered a (g, d) h = go d.pending refl h
  where
    go :
        (o : Option SwarmAddress)
        → d.pending ≡ o
        → Covered a (g, d)
        → Covered a (shed_from o (g, d))
    go none e h = h
    go (some addr) e (inl (inl q)) = inl (inl q)
    go (some addr) e (inl (inr (inl m))) =
        inl (inr (inl (In-append_left a g.fallback (addr ∷ []) m)))
    go (some addr) e (inl (inr (inr kept))) = inl (inr (inr kept))
    go (some addr) e (inr (inl p)) =
        inl (inr (inl (In-append_right a g.fallback (addr ∷ []) (inl (cc)))))
    go (some addr) e (inr (inr m)) = inr (inr m)

pub if-Covered :
    (a : SwarmAddress) (b : Bool) (s s' : State)
    → Covered a s
    → Covered a s'
    → Covered a (if b then s else s')
if-Covered a true s s' h h' = h
if-Covered a false s s' h h' = h'

pub begin-Covered : (c : Conn) (a : SwarmAddress) (s : State) → Covered a s → Covered a (begin c s)
unfolding begin
begin-Covered c a (g, d) h =
    let halted = (d.spend_stop || near_cap c g d) || g.wind_down in
    let s : State = (g, record d { spend_stop = d.spend_stop || near_cap c g d }) in
    if-Covered a d.alive (goto (admitting halted) (if halted then shed s else s))
      (goto hung_up (g, d)) (if-Covered a halted (shed s) s (shed-Covered a s h) h) h

pub give_up-Covered : (a : SwarmAddress) (s : State) → Covered a s → Covered a (give_up s)
unfolding give_up
give_up-Covered a (g, d) h =
    let s : State = (g, record d { unjoined = 0 }) in
    if-Covered a (is_empty d.running) (goto (returned (unpaid d.pacer)) (shed s)) (g, d)
      (shed-Covered a s h) h

-- The chunk that is considered is in the store, or reserved for a task, or it waits.
pub consider-Covered :
    (c : Conn) (now : ℕ) (addr a : SwarmAddress) (g : Shared) (d : Drive)
    → Covered a (g, d) ⊎ (a ≡ addr)
    → d.pending ≡ none
    → Covered a (consider c now addr (g, d))
unfolding consider
consider-Covered c now addr a g d h free = elim (Bool-cases (contains g.store addr)) [
  | inl there ↦ rw there (in_store there h)
  | inr fresh ↦ rw fresh (if-Covered a (admit _ (c.price addr) now).1 _ _ (admitted h) (waits h))
]
  where
    in_store : contains g.store addr ≡ true → Covered a (g, d) ⊎ (a ≡ addr) → Covered a (g, d)
    in_store there (inl h) = h
    in_store there (inr e) = inl (inr (inr (ap (contains g.store) e ∙ there)))

    admitted :
        Covered a (g, d) ⊎ (a ≡ addr)
        → Kept a g ⊎ (d.pending ≡ some a) ⊎ In a (targets (d.running ++ (addr, c.price addr) ∷ []))
    admitted (inl (inl k)) = inl k
    admitted (inl (inr (inl p))) = inr (inl p)
    admitted (inl (inr (inr m))) =
        inr (inr (targets-append a d.running addr (c.price addr) (inl m)))
    admitted (inr e) = inr (inr (targets-append a d.running addr (c.price addr) (inr e)))

    waits :
        Covered a (g, d) ⊎ (a ≡ addr) → Kept a g ⊎ (some addr ≡ some a) ⊎ In a (targets d.running)
    waits (inl (inl k)) = inl k
    waits (inl (inr (inl p))) = absurd (cc)
    waits (inl (inr (inr m))) = inr (inr m)
    waits (inr e) = inr (inl (ap some (sym e)))
