-- ===== src/FetchScheduled/Stored.antt =====
-- Where the chunks of the work pool are once the loops of `drive` have returned and the fallback worker
-- is through its queue.
use mathlib.Core.Path.{subst}
use directswarm.Base.{
  ℕ, ◌≡◌, refl, ap, ◌∙◌, ◌⊎◌, inl, inr, true, false, List, [], ◌∷◌, ◌++◌, Option, none, some, ◌==◌,
  Bool-cases, All, In, In-append_left, In-append_right, lookup, lookup_or, lookup_or-cons, nat_eq,
}
use directswarm.Swarm.{SwarmAddress}
use directswarm.Wire.{Bytes}
use directswarm.Hex.{HexCrate}
use directswarm.ChunkStore.{contains, put}
use directswarm.Dispatch.{Pool, drain_all}
use directswarm.Connection.{Shared, Conn, Drive}
use directswarm.Connection.Conserve.{Queued, Kept}
use directswarm.Connection.Conserve.Tasks.{Writes, put-stores}
use directswarm.Connection.Conserve.World.{
  Moment, run_world, Ordinary, Begun, HasReturned, run_world-Kept,
}
use directswarm.FetchScheduled.{
  Worker, Forward, forwarded, forward_one, forward_all, queue, conclude,
}

-- A chunk is in the store, or among the failures.
abbrev pub Settled : SwarmAddress → Worker → Type 0
Settled a w = (contains w.store a ≡ true) ⊎ In a w.fails

abbrev pub DiskWrites : Forward → Type 0
DiskWrites f = (a : SwarmAddress) → Writes (f.fetches a) (f.disk a)

drain_all-Queued : (a : SwarmAddress) (pool : Pool) → Queued a pool → In a (drain_all pool).1
unfolding drain_all
drain_all-Queued a [] (p, m) = absurd (nothing m)
  where
    nothing : In a (lookup_or [] p []) → ⊥
    nothing m = unfold lookup_or lookup in m
drain_all-Queued a ((q, bucket) ∷ pool) (p, m) = elim (Bool-cases (q == p)) [
  | inl same ↦
      In-append_left a bucket (drain_all pool).1
        (subst (In a) (lookup_or-cons [] q p bucket pool ∙ rw same refl) m)
  | inr other ↦ In-append_right a bucket (drain_all pool).1 (
      drain_all-Queued a pool
        (p, subst (In a) (lookup_or-cons [] q p bucket pool ∙ rw other refl) m))
]

module _ (hex : HexCrate) (f : Forward) (writes : DiskWrites f) where
  forwarded-Settled :
      (addr a : SwarmAddress) (o : Option Bytes) (w : Worker)
      → Writes o (f.disk addr)
      → Settled a w ⊎ (a ≡ addr)
      → Settled a (forwarded hex f addr o w)
  forwarded-Settled addr a none w _ (inl (inl kept)) = inl kept
  forwarded-Settled addr a none w _ (inl (inr m)) = inr (In-append_left a w.fails (addr ∷ []) m)
  forwarded-Settled addr a none w _ (inr e) = inr (In-append_right a w.fails (addr ∷ []) (inl e))
  forwarded-Settled addr a (some wire) w (at_once, small) h = go h
    where
      stored :
          (contains w.store a ≡ true) ⊎ (a ≡ addr)
          → contains (put hex (f.disk addr) (f.syncs addr) addr wire w.store).0 a ≡ true
      stored k =
          ap (λ x. contains (put hex x (f.syncs addr) addr wire w.store).0 a) at_once
          ∙ put-stores hex (f.syncs addr) addr wire w.store a small k

      go :
          Settled a w ⊎ (a ≡ addr)
          → (contains (put hex (f.disk addr) (f.syncs addr) addr wire w.store).0 a ≡ true)
            ⊎ In a w.fails
      go (inl (inl kept)) = inl (stored (inl kept))
      go (inl (inr m)) = inr m
      go (inr e) = inl (stored (inr e))

  forward_one-Settled :
      (addr a : SwarmAddress) (w : Worker)
      → Settled a w ⊎ (a ≡ addr)
      → Settled a (forward_one hex f addr w)
  unfolding forward_one
  forward_one-Settled addr a w h = elim (Bool-cases (contains w.store addr)) [
    | inl there ↦ rw there (held there h)
    | inr fresh ↦ rw fresh (forwarded-Settled addr a (f.fetches addr) w (writes addr) h)
  ]
    where
      held : contains w.store addr ≡ true → Settled a w ⊎ (a ≡ addr) → Settled a w
      held there (inl k) = k
      held there (inr e) = inl (ap (contains w.store) e ∙ there)

  forward_all-Settled :
      (addrs : List SwarmAddress) (a : SwarmAddress) (w : Worker)
      → Settled a w ⊎ In a addrs
      → Settled a (forward_all hex f addrs w)
  unfolding forward_all
  forward_all-Settled [] a w (inl h) = h
  forward_all-Settled [] a w (inr nothing) = absurd nothing
  forward_all-Settled (addr ∷ addrs) a w (inl h) =
      forward_all-Settled addrs a (forward_one hex f addr w)
        (inl (forward_one-Settled addr a w (inl h)))
  forward_all-Settled (addr ∷ addrs) a w (inr (inl e)) =
      forward_all-Settled addrs a (forward_one hex f addr w)
        (inl (forward_one-Settled addr a w (inr e)))
  forward_all-Settled (addr ∷ addrs) a w (inr (inr m)) =
      forward_all-Settled addrs a (forward_one hex f addr w) (inr m)

  conclude-Settled : (a : SwarmAddress) (g : Shared) → Kept a g → Settled a (conclude hex f false g)
  unfolding conclude
  conclude-Settled a g k = forward_all-Settled (queue false g) a _ (waiting k)
    where
      waiting :
          Kept a g
          → ((contains g.store a ≡ true) ⊎ In a []) ⊎ In a (g.fallback ++ (drain_all g.pool).1)
      waiting (inl q) =
          inr (In-append_right a g.fallback (drain_all g.pool).1 (drain_all-Queued a g.pool q))
      waiting (inr (inl m)) = inr (In-append_left a g.fallback (drain_all g.pool).1 m)
      waiting (inr (inr kept)) = inl (inl kept)

  -- From where connections begin the loop of `drive`, behind `measure_lambda`, with nothing reserved,
  -- prices of at most `top` and a pipeline whose prices fit into a word; with a fallback, and a disk that
  -- writes what it is given: once every one of them has returned and the fallback worker has gone
  -- through its queue, each chunk that was in the work pool, in the queue or in the store at the
  -- beginning is in the store or is named among the failures, whatever the interleaving of the steps of
  -- `drive`, the ends of its tasks, hang-ups, announcements and the winding down was, and whatever the
  -- peers and the fallback answered. The pops of `measure_lambda` are not among the steps.
  pub conclude-run_world :
      (top : ℕ) (es : List Moment) (a : SwarmAddress) (g : Shared) (ds : List (Conn × Drive))
      → All (Begun top) ds
      → All Ordinary es
      → Kept a g
      → All HasReturned (run_world hex es (g, ds)).1
      → Settled a (conclude hex f false (run_world hex es (g, ds)).0)
  conclude-run_world top es a g ds begun o k returned_all =
      conclude-Settled a (run_world hex es (g, ds)).0
        (run_world-Kept hex top es a g ds begun o k returned_all)
