-- ===== src/FetchScheduled.antt =====
-- The end of `fetch_scheduled` of rust/ds-net/src/schedule.rs: the fallback worker, the chunks that no
-- connection took, and the report. The worker runs beside the connections; here it takes its queue
-- after them, in the order in which its fetches end.
pub mod Stored
mod Tests
use directswarm.Base.{
  ℕ, ◌+◌, ◌-◌, Bool, true, false, List, [], ◌∷◌, ◌++◌, Option, none, some, if◌then◌else◌, length,
  wrap_add,
}
use directswarm.Swarm.{SwarmAddress}
use directswarm.Wire.{Bytes}
use directswarm.Hex.{HexCrate}
use directswarm.ChunkStore.{Store, Write, contains, put}
use directswarm.Dispatch.{Pool, drain_all}
use directswarm.Connection.{Shared}

-- What the worker has at hand: the store, its counters, and the chunks that it could not fetch.
pub record Worker : Type 0 where
  pub store : Store
  pub fallback_bytes : ℕ
  pub fallback_count : ℕ
  pub fails : List SwarmAddress

-- What the node's forwarding and the disk do with a chunk.
pub record Forward : Type 0 where
  pub fetches : SwarmAddress → Option Bytes
  pub disk : SwarmAddress → Write
  pub syncs : SwarmAddress → Bool

abbrev pub forwarded : HexCrate → Forward → SwarmAddress → Option Bytes → Worker → Worker
forwarded hex f addr none w = record w { fails = w.fails ++ addr ∷ [] }
forwarded hex f addr (some wire) w = record w {
  store = (put hex (f.disk addr) (f.syncs addr) addr wire w.store).0;
  fallback_bytes = wrap_add w.fallback_bytes (length wire);
  fallback_count = wrap_add w.fallback_count 1;
}

-- A chunk that is in the store is skipped.
unfoldable pub forward_one : HexCrate → Forward → SwarmAddress → Worker → Worker
forward_one hex f addr w =
    if contains w.store addr then w else forwarded hex f addr (f.fetches addr) w

unfoldable pub forward_all : HexCrate → Forward → List SwarmAddress → Worker → Worker
forward_all hex f [] w = w
forward_all hex f (addr ∷ rest) w = forward_all hex f rest (forward_one hex f addr w)

-- The chunks that are left in buckets are dropped without a fallback, or join its queue.
abbrev pub queue : Bool → Shared → List SwarmAddress
queue direct_only g = if direct_only then g.fallback else g.fallback ++ (drain_all g.pool).1

abbrev pub dropped : Bool → ℕ → Shared → ℕ
dropped direct_only uncovered g =
    if direct_only then uncovered + length (drain_all g.pool).1 else uncovered

unfoldable pub conclude : HexCrate → Forward → Bool → Shared → Worker
conclude hex f direct_only g =
    forward_all hex f (queue direct_only g)
      (record { store = g.store; fallback_bytes = 0; fallback_count = 0; fails = [] })

-- The report's number of chunks that came neither way.
unfoldable pub chunks_failed : ℕ → ℕ → ℕ → ℕ → ℕ
chunks_failed needed direct fallback uncovered = needed - wrap_add direct fallback - uncovered
