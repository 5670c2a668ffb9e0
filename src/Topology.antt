-- ===== src/Topology.antt =====
-- rust/ds-core/src/topology.rs: the cache of the nodes that are known, and which of them cover a
-- chunk. A multiaddr is the list of its bytes; a hash map is an association list in any order.
pub mod Records
pub mod Storers
mod Tests
use directswarm.Base.{
  ℕ, zero, suc, ◌+◌, max, Bool, true, false, List, [], ◌∷◌, ◌++◌, Option, none, some, ltb, leb,
  ◌==◌, ◌||◌, if◌then◌else◌, length, keep, any, map, replicate, unwrap_or, u32_max, bytes_beq,
  bytes_eq, nat_eq, lookup, insert, lookup_or, sort_by_key, ◌>>=◌,
}
use directswarm.Swarm.{SwarmAddress, proximity, neighborhood, max_po}

pub record NodeRecord : Type 0 where
  pub overlay : SwarmAddress
  pub underlays : List (List ℕ)
  pub rtt_ms : Option ℕ
  pub last_seen_tick : ℕ
  pub dialed_ok : Bool

pub record TopologyCache : Type 0 where
  pub reference : SwarmAddress
  pub nodes : List (SwarmAddress × NodeRecord)

abbrev pub contains : List ℕ → List (List ℕ) → Bool
contains u us = any (bytes_beq u) us

-- New underlays are added at the end.
unfoldable pub push_new : List (List ℕ) → List (List ℕ) → List (List ℕ)
push_new us [] = us
push_new us (u ∷ more) = push_new (if contains u us then us else us ++ u ∷ []) more

abbrev pub or_else : Option ℕ → Option ℕ → Option ℕ
or_else none old = old
or_else (some n) old = some n

abbrev pub refresh_node : NodeRecord → NodeRecord → NodeRecord
refresh_node existing r = record existing {
  last_seen_tick = max existing.last_seen_tick r.last_seen_tick;
  dialed_ok = existing.dialed_ok || r.dialed_ok;
  rtt_ms = or_else r.rtt_ms existing.rtt_ms;
  underlays = push_new existing.underlays r.underlays;
}

abbrev pub merged : Option NodeRecord → NodeRecord → NodeRecord
merged none r = r
merged (some existing) r = refresh_node existing r

unfoldable pub upsert : TopologyCache → NodeRecord → TopologyCache
upsert c r = record c { nodes = insert r.overlay (merged (lookup r.overlay c.nodes) r) c.nodes }

unfoldable pub get_node : TopologyCache → SwarmAddress → Option NodeRecord
get_node c overlay = lookup overlay c.nodes

abbrev pub records : TopologyCache → List NodeRecord
records c = map (λ x. x.1) c.nodes

-- `bins[i] += 1`; the array has a place for every proximity order.
unfoldable pub bump : ℕ → List ℕ → List ℕ
bump i [] = []
bump zero (n ∷ ns) = (n + 1) ∷ ns
bump (suc i) (n ∷ ns) = n ∷ bump i ns

abbrev pub bin_all : SwarmAddress → List NodeRecord → List ℕ → List ℕ
bin_all reference [] bins = bins
bin_all reference (n ∷ ns) bins = bin_all reference ns (bump (proximity reference n.overlay) bins)

unfoldable pub bin_counts : TopologyCache → List ℕ
bin_counts c = bin_all c.reference (records c) (replicate (max_po + 1) 0)

abbrev pub covers : SwarmAddress → ℕ → NodeRecord → Bool
covers chunk depth n = leb depth (proximity n.overlay chunk)

abbrev pub rtt_or_max : NodeRecord → ℕ
rtt_or_max n = unwrap_or n.rtt_ms u32_max

unfoldable pub storers_for : TopologyCache → SwarmAddress → ℕ → List NodeRecord
storers_for c chunk depth = sort_by_key rtt_or_max (keep (covers chunk depth) (records c))

pub record Coverage : Type 0 where
  pub chunks_covered : ℕ
  pub chunks_total : ℕ
  pub neighborhoods_total : ℕ
  pub neighborhoods_covered : ℕ

-- The loop of `coverage`: the chunks covered so far and the neighbourhoods met. A depth that
-- `neighborhood` refuses panics: `none`.
unfoldable pub cover :
    TopologyCache → ℕ → List SwarmAddress → ℕ × List (ℕ × Bool) → Option (ℕ × List (ℕ × Bool))
cover c depth [] found = some found
cover c depth (chunk ∷ chunks) (n, nbhds) = elim (neighborhood chunk depth) [
  | none ↦ none
  | some nbhd ↦
      let covered = any (covers chunk depth) (records c) in
      cover c depth chunks
        (if covered then n + 1 else n, insert nbhd (lookup_or false nbhd nbhds || covered) nbhds)
]

unfoldable pub coverage : TopologyCache → List SwarmAddress → ℕ → Option Coverage
unfolding cover
coverage c chunks depth = do
  (n, nbhds) ← cover c depth chunks (0, [])
  some (record {
    chunks_covered = n;
    chunks_total = length chunks;
    neighborhoods_total = length nbhds;
    neighborhoods_covered = length (keep (λ x. x.1) nbhds);
  })
