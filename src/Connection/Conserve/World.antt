-- ===== src/Connection/Conserve/World.antt =====
-- Several connections over one shared state, from where each begins the loop of `drive`, in any
-- interleaving. What `measure_lambda` does before the loop is no step here.
use mathlib.Core.Path.{subst}
use directswarm.Base.{
  ℕ, zero, suc, ◌*◌, ◌≤◌, ◌≡◌, sym, ◌⊎◌, inl, inr, true, List, [], ◌∷◌, some, arith, All, In,
  u64_max,
}
use directswarm.Swarm.{SwarmAddress}
use directswarm.Hex.{HexCrate}
use directswarm.Pacer.{Pacer}
use directswarm.Connection.{Shared, Conn, Drive, driven, State}
use directswarm.Connection.Events.{Event, own, task, hang_up, announce, others, step}
use directswarm.Connection.Invariant.{Inv, result}
use directswarm.Connection.Invariant.Run.{step-Inv}
use directswarm.Connection.Conserve.{Kept, Held, Covered, targets}
use directswarm.Connection.Conserve.Steps.{advance-Covered}
use directswarm.Connection.Conserve.Tasks.{Writes, finish_task-Covered}

abbrev pub World : Type 0
World = Shared × List (Conn × Drive)

-- An event of the connection at a place of the list.
unfoldable pub step_at : HexCrate → ℕ → Event → Shared → List (Conn × Drive) → World
step_at hex i e g [] = (g, [])
step_at hex zero e g ((c, d) ∷ ds) = let (g', d') = step hex c e (g, d) in (g', (c, d') ∷ ds)
step_at hex (suc i) e g (c ∷ ds) = let (g', ds') = step_at hex i e g ds in (g', c ∷ ds')

-- The events of the connections in their order; the stall detector may wind them all down.
pub data Moment : Type 0 where
  at : ℕ → Event → Moment
  winding_down : Moment

unfoldable pub run_world : HexCrate → List Moment → World → World
run_world hex [] w = w
run_world hex (at i e ∷ es) (g, ds) = run_world hex es (step_at hex i e g ds)
run_world hex (winding_down ∷ es) (g, ds) = run_world hex es (record g { wind_down = true }, ds)

-- Only the connections change what is shared, and the disk writes what they store.
abbrev pub Ordinary : Moment → Type 0
Ordinary (at i (task j chunk w syncs)) = Writes chunk w
Ordinary (at i (others g)) = ⊥
Ordinary (at i (own t)) = Unit
Ordinary (at i hang_up) = Unit
Ordinary (at i (announce n)) = Unit
Ordinary winding_down = Unit

abbrev pub HeldBy : SwarmAddress → List (Conn × Drive) → Type 0
HeldBy a [] = ⊥
HeldBy a ((c, d) ∷ ds) = Held a d ⊎ HeldBy a ds

step-Covered :
    (hex : HexCrate) (c : Conn) (i : ℕ) (e : Event) (a : SwarmAddress) (s : State)
    → Ordinary (at i e)
    → Covered a s
    → Covered a (step hex c e s)
unfolding step
step-Covered hex c i (own t) a s o h = advance-Covered c t a s h
step-Covered hex c i (task j chunk w syncs) a s o h =
    finish_task-Covered hex j chunk w syncs a s o h
step-Covered hex c i hang_up a (g, d) o h = h
step-Covered hex c i (announce n) a (g, d) o h = h
step-Covered hex c i (others g') a (g, d) o h = absurd o

step_at-Covered :
    (hex : HexCrate) (i : ℕ) (e : Event) (a : SwarmAddress) (g : Shared) (ds : List (Conn × Drive))
    → Ordinary (at i e)
    → Kept a g ⊎ HeldBy a ds
    → Kept a (step_at hex i e g ds).0 ⊎ HeldBy a (step_at hex i e g ds).1
unfolding step_at
step_at-Covered hex i e a g [] o h = h
step_at-Covered hex zero e a g ((c, d) ∷ ds) o h = go h
  where
    mine :
        Covered a (g, d)
        → Kept a (step hex c e (g, d)).0 ⊎ Held a (step hex c e (g, d)).1 ⊎ HeldBy a ds
    mine k = elim (step-Covered hex c 0 e a (g, d) o k) [ inl m ↦ inl m | inr m ↦ inr (inl m) ]

    go :
        Kept a g ⊎ Held a d ⊎ HeldBy a ds
        → Kept a (step hex c e (g, d)).0 ⊎ Held a (step hex c e (g, d)).1 ⊎ HeldBy a ds
    go (inl k) = mine (inl k)
    go (inr (inl k)) = mine (inr k)
    go (inr (inr k)) = inr (inr k)
step_at-Covered hex (suc i) e a g ((c, d) ∷ ds) o h = go h (step_at-Covered hex i e a g ds o)
  where
    go :
        Kept a g ⊎ Held a d ⊎ HeldBy a ds
        → (Kept a g ⊎ HeldBy a ds
            → Kept a (step_at hex i e g ds).0 ⊎ HeldBy a (step_at hex i e g ds).1)
        → Kept a (step_at hex i e g ds).0 ⊎ Held a d ⊎ HeldBy a (step_at hex i e g ds).1
    go (inl k) theirs = elim (theirs (inl k)) [ inl m ↦ inl m | inr m ↦ inr (inr m) ]
    go (inr (inl k)) theirs = inr (inl k)
    go (inr (inr k)) theirs = elim (theirs (inr k)) [ inl m ↦ inl m | inr m ↦ inr (inr m) ]

-- As long as the disk writes whole chunks of a 32-bit length, a chunk that the pool, the fallback
-- channel, the store or a connection has at first is still with one of them after any interleaving
-- of the connections' steps, their tasks' ends, hang-ups and the winding down.
pub run_world-Covered :
    (hex : HexCrate) (es : List Moment) (a : SwarmAddress) (g : Shared) (ds : List (Conn × Drive))
    → All Ordinary es
    → Kept a g ⊎ HeldBy a ds
    → (let (g', ds') = run_world hex es (g, ds) in Kept a g' ⊎ HeldBy a ds')
unfolding run_world
run_world-Covered hex [] a g ds o h = h
run_world-Covered hex (at i e ∷ es) a g ds (oe, o) h =
    run_world-Covered hex es a (step_at hex i e g ds).0 (step_at hex i e g ds).1 o
      (step_at-Covered hex i e a g ds oe h)
run_world-Covered hex (winding_down ∷ es) a g ds (_, o) h =
    run_world-Covered hex es a (record g { wind_down = true }) ds o h

-- A connection whose prices fit, at one of its states.
abbrev Fine : ℕ → Conn × Drive → Type 0
Fine top (c, d) =
    ((a : SwarmAddress) → c.price a ≤ top) × (c.pipeline * top ≤ u64_max) × Inv c top d

step_at-Fine :
    (hex : HexCrate) (top i : ℕ) (e : Event) (g : Shared) (ds : List (Conn × Drive))
    → All (Fine top) ds
    → All (Fine top) (step_at hex i e g ds).1
unfolding step_at
step_at-Fine hex top i e g [] h = tt
step_at-Fine hex top zero e g ((c, d) ∷ ds) ((cheap, wide, inv), h) =
    ((cheap, wide, step-Inv c top cheap wide hex e (g, d) inv), h)
step_at-Fine hex top (suc i) e g ((c, d) ∷ ds) (f, h) = (f, step_at-Fine hex top i e g ds h)

run_world-Fine :
    (hex : HexCrate) (top : ℕ) (es : List Moment) (g : Shared) (ds : List (Conn × Drive))
    → All (Fine top) ds
    → All (Fine top) (run_world hex es (g, ds)).1
unfolding run_world
run_world-Fine hex top [] g ds h = h
run_world-Fine hex top (at i e ∷ es) g ds h =
    run_world-Fine hex top es (step_at hex i e g ds).0 (step_at hex i e g ds).1
      (step_at-Fine hex top i e g ds h)
run_world-Fine hex top (winding_down ∷ es) g ds h =
    run_world-Fine hex top es (record g { wind_down = true }) ds h

-- A connection as `drive` begins it, with nothing reserved and prices that fit.
abbrev pub Begun : ℕ → Conn × Drive → Type 0
Begun top (c, d) =
    ((a : SwarmAddress) → c.price a ≤ top)
    × (c.pipeline * top ≤ u64_max)
    × ((p : Pacer) × (p.mirror.reserved ≡ 0) × (d ≡ driven p))

abbrev pub HasReturned : Conn × Drive → Type 0
HasReturned (c, d) = (residual : ℕ) × (result d.at ≡ some residual)

Begun-Fine : (top : ℕ) (ds : List (Conn × Drive)) → All (Begun top) ds → All (Fine top) ds
unfolding driven
Begun-Fine top [] h = tt
Begun-Fine top ((c, d) ∷ ds) ((cheap, wide, (p, none_reserved, e)), h) =
    ((cheap, wide, subst (Inv c top) (sym e) (ground arith)), Begun-Fine top ds h)

at_rest-HeldBy :
    (top : ℕ) (a : SwarmAddress) (ds : List (Conn × Drive))
    → All (Fine top) ds
    → All HasReturned ds
    → HeldBy a ds
    → ⊥
at_rest-HeldBy top a [] h rs k = k
at_rest-HeldBy top a ((c, d) ∷ ds) ((cheap, wide, inv), h) ((r, e), rs) (inl (inl p)) =
    let (nothing, idle) = (inv.ended r e).0 in absurd (cc)
at_rest-HeldBy top a ((c, d) ∷ ds) ((cheap, wide, inv), h) ((r, e), rs) (inl (inr m)) =
    let (nothing, idle) = (inv.ended r e).0 in absurd (subst (λ x. In a (targets x)) idle m)
at_rest-HeldBy top a ((c, d) ∷ ds) (f, h) (r, rs) (inr k) = at_rest-HeldBy top a ds h rs k

-- Once every connection that was begun has returned, each chunk that was in the pool at first is in
-- the pool, in the fallback channel or in the store, whatever the interleaving was, if the disk
-- wrote what it was given.
pub run_world-Kept :
    (hex : HexCrate) (top : ℕ) (es : List Moment) (a : SwarmAddress) (g : Shared)
    (ds : List (Conn × Drive))
    → All (Begun top) ds
    → All Ordinary es
    → Kept a g
    → All HasReturned (run_world hex es (g, ds)).1
    → Kept a (run_world hex es (g, ds)).0
run_world-Kept hex top es a g ds begun o k returned_all =
    elim (run_world-Covered hex es a g ds o (inl k)) [
      | inl kept ↦ kept
      | inr held ↦ absurd (
          at_rest-HeldBy top a (run_world hex es (g, ds)).1
            (run_world-Fine hex top es g ds (Begun-Fine top ds begun)) returned_all held)
    ]
