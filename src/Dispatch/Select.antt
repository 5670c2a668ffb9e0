-- ===== src/Dispatch/Select.antt =====
-- `select_storers` and `public_dialable` of rust/ds-net/src/schedule.rs: the candidates of each
-- bucket
-- that has work, best first. `parse` is the multiaddr library's reading of an address in text.
pub mod Ranked
mod Tests
use directswarm.Base.{
  ℕ, ◌+◌, ◌-◌, ◌*◌, ◌^◌, ◌≤◌, Bool, true, false, not, ◌&&◌, List, [], ◌∷◌, ◌++◌, map, Option, none,
  some, ltb, if◌then◌else◌, unwrap_or, ◌>>=◌, lookup_or, insert, contains_key, nat_eq, codes,
  u32_max, u64_max, sort_by_key,
}
use directswarm.Base.Split.{strip_prefix}
use directswarm.Swarm.{SwarmAddress, bucket_prefix}
use directswarm.Wire.{Bytes}
use directswarm.PeerState.{PeerState, Store, get, or_default}
use directswarm.Topology.{NodeRecord, TopologyCache, records}
use directswarm.Dispatch.{Selected, Member}

abbrev pub assumed_cps_x10 : ℕ
assumed_cps_x10 = 140

abbrev pub starts_with : List ℕ → List ℕ → Bool
starts_with prefix text = elim (strip_prefix prefix text) [ none ↦ false | some rest ↦ true ]

-- `str::contains`.
unfoldable pub has_text : List ℕ → List ℕ → Bool
has_text part [] = starts_with part []
has_text part (x ∷ xs) = if starts_with part (x ∷ xs) then true else has_text part xs

-- Only a public IPv4 address without a websocket is dialled.
unfoldable pub public_dialable : (List ℕ → Option Bytes) → List ℕ → Option Bytes
public_dialable parse u =
    if starts_with (codes "/ip4/") u
      && not (starts_with (codes "/ip4/10.") u)
      && not (starts_with (codes "/ip4/192.168") u)
      && not (starts_with (codes "/ip4/172.") u)
      && not (has_text (codes "/ws") u)
    then parse u
    else none

-- `find_map`.
abbrev pub first_of : (List ℕ → Option Bytes) → List (List ℕ) → Option Bytes
first_of f [] = none
first_of f (u ∷ us) = elim (f u) [ none ↦ first_of f us | some a ↦ some a ]

pub record Candidate : Type 0 where
  pub inverse_rate : ℕ
  pub class : ℕ
  pub inverse_threshold : ℕ
  pub rtt : ℕ
  pub underlay : Bytes
  pub overlay : SwarmAddress

-- Measured fast, unknown, measured slow.
abbrev pub latency_class : Option ℕ → ℕ
latency_class none = 1
latency_class (some l) = if ltb 2_500 l then 2 else 0

abbrev pub effective_rate : PeerState → ℕ
effective_rate ps = if ltb 0 ps.service_cps_x10 then ps.service_cps_x10 else assumed_cps_x10

abbrev pub ranked : PeerState → NodeRecord → Bytes → Candidate
ranked ps n underlay = record {
  inverse_rate = u64_max - effective_rate ps;
  class = latency_class ps.lambda_ms;
  inverse_threshold = u64_max - ps.threshold_last;
  rtt = unwrap_or n.rtt_ms u32_max;
  underlay = underlay;
  overlay = n.overlay;
}

-- The tuple of the four numbers as one number whose order is the tuples' order.
abbrev pub rank : Candidate → ℕ
rank c = ((c.inverse_rate * 3 + c.class) * 2 ^ 64 + c.inverse_threshold) * 2 ^ 32 + c.rtt

abbrev pub Buckets : Type 0
Buckets = List (ℕ × List Candidate)

-- The buckets that a chunk needs.
unfoldable pub count_buckets : ℕ → List SwarmAddress → List (ℕ × ℕ) → List (ℕ × ℕ)
count_buckets depth [] counts = counts
count_buckets depth (a ∷ needed) counts =
    let p = bucket_prefix a depth in
    count_buckets depth needed (insert p (lookup_or 0 p counts + 1) counts)

abbrev pub push_candidate : ℕ → Option Candidate → Buckets → Buckets
push_candidate p none buckets = buckets
push_candidate p (some c) buckets = insert p (lookup_or [] p buckets ++ c ∷ []) buckets

-- One record of the cache.
unfoldable pub consider_record :
    (List ℕ → Option Bytes) → Store → ℕ → List (ℕ × ℕ) → NodeRecord → Buckets → Buckets
consider_record parse peers depth counts n buckets =
    let p = bucket_prefix n.overlay depth in
    if contains_key p counts
    then push_candidate p
        (first_of (public_dialable parse) n.underlays >>= λ underlay.
          some (ranked (or_default (get peers n.overlay)) n underlay))
        buckets
    else buckets

unfoldable pub collect :
    (List ℕ → Option Bytes) → Store → ℕ → List (ℕ × ℕ) → List NodeRecord → Buckets → Buckets
collect parse peers depth counts [] buckets = buckets
collect parse peers depth counts (n ∷ ns) buckets =
    collect parse peers depth counts ns (consider_record parse peers depth counts n buckets)

abbrev pub member : ℕ → Candidate → Member
member p c =
    (record { underlay = c.underlay; overlay = c.overlay; prefix = p }, u64_max - c.inverse_rate)

abbrev pub sorted_members : ℕ × List Candidate → ℕ × List Member
sorted_members (p, cands) = (p, map (member p) (sort_by_key rank cands))

unfoldable pub select_storers :
    (List ℕ → Option Bytes) → TopologyCache → List SwarmAddress → ℕ → Store → List (ℕ × List Member)
select_storers parse cache needed depth peers =
    map sorted_members
      (collect parse peers depth (count_buckets depth needed []) (records cache) [])
