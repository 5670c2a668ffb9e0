-- ===== src/Topology/Tests.antt =====
-- A cache filled and asked, and instances of the theorems on it.
use mathlib.Core.List.{Perm}
use directswarm.Base.{
  ℕ, ◌<◌, zero, suc, ◌≡◌, refl, false, List, [], ◌∷◌, Option, none, some, arith, All, replicate,
  map, keep, sum, get_or, length, Ascending, lookup, insert, lookup_or, sort_by_key, insert_sorted,
}
use directswarm.Swarm.{SwarmAddress, IsAddress, proximity, neighborhood, leading_zeros}
use directswarm.Topology.{
  NodeRecord, TopologyCache, records, get_node, bin_counts, rtt_or_max, storers_for, Coverage,
  coverage, cover,
}
use directswarm.Topology.Records.{upsert_all, own, empty_cache, Kept, upsert_all-Kept}
use directswarm.Topology.Storers.{is_neighbor, has_storer, storers_for_lem, in_bin, bin_counts_lem}

abbrev address : ℕ → SwarmAddress
address b = b ∷ replicate 31 0

abbrev node : ℕ → Option ℕ → ℕ → NodeRecord
node b rtt tick = record {
  overlay = address b;
  underlays = (tick ∷ []) ∷ [];
  rtt_ms = rtt;
  last_seen_tick = tick;
  dialed_ok = false;
}

abbrev three : List NodeRecord
three = node 0x80 none 3 ∷ node 0x90 (some 40) 1 ∷ node 0x10 (some 5) 2 ∷ []

abbrev cache : TopologyCache
cache = record { reference = address 0; nodes = map (λ n. (n.overlay, n)) three }

-- Of two storers the measured one comes first.
fastest_first : map (λ n. n.last_seen_tick) (storers_for cache (address 0x81) 1) ≡ 1 ∷ 3 ∷ []
unfolding storers_for sort_by_key insert_sorted proximity leading_zeros
fastest_first = refl

half_covered :
    coverage cache (address 0x81 ∷ address 0x40 ∷ address 0x82 ∷ []) 2
    ≡ some (record {
      chunks_covered = 2;
      chunks_total = 3;
      neighborhoods_total = 2;
      neighborhoods_covered = 1;
    })
unfolding coverage cover proximity leading_zeros neighborhood insert lookup_or lookup
half_covered = refl

upsert_all-Kept_example :
    Kept
      (get_node
        (upsert_all (empty_cache (address 0)) (node 7 none 4 ∷ node 7 (some 9) 2 ∷ []))
        (address 7))
      (own (address 7) (node 7 none 4 ∷ node 7 (some 9) 2 ∷ []))
upsert_all-Kept_example =
    upsert_all-Kept (address 0) (node 7 none 4 ∷ node 7 (some 9) 2 ∷ []) (address 7)

zeros : (n : ℕ) → All (λ b. b < 256) (replicate n 0)
zeros zero = tt
zeros (suc n) = (omega arith, zeros n)

address-IsAddress : (b : ℕ) → b < 256 → IsAddress (address b)
address-IsAddress b h = record { size = refl; bytes = (h, zeros 31) }

storers_for_lem_example :
    Perm (storers_for cache (address 0x81) 1) (keep (is_neighbor (address 0x81) 1) (records cache))
    × Ascending rtt_or_max (storers_for cache (address 0x81) 1)
    × (found : Coverage) × (coverage cache (address 0x81 ∷ address 0x40 ∷ []) 1 ≡ some found)
    × (found.chunks_covered ≡ length (keep (has_storer cache 1) (address 0x81 ∷ address 0x40 ∷ [])))
storers_for_lem_example =
    storers_for_lem cache (address 0x81) 1 (address 0x81 ∷ address 0x40 ∷ [])
      (address-IsAddress 0x81 (omega arith))
      (
        address-IsAddress 0x80 (omega arith),
        (address-IsAddress 0x90 (omega arith), (address-IsAddress 0x10 (omega arith), tt)),
      )
      (omega arith)

bin_counts_lem_example :
    (get_or (bin_counts cache) 0 0 ≡ in_bin cache.reference 0 (records cache))
    × (sum (bin_counts cache) ≡ length (records cache))
bin_counts_lem_example = bin_counts_lem cache 0 (omega arith)
