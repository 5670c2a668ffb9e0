-- ===== src/Dispatch/Select/Tests.antt =====
-- Two members of a bucket ordered, and the addresses that are not dialled.
use directswarm.Base.{
  ℕ, ◌≡◌, refl, true, [], ◌∷◌, none, some, All, arith, codes, replicate, bytes_eq,
}
use directswarm.Base.Split.{strip_prefix}
use directswarm.PeerState.{Store, unknown}
use directswarm.Topology.{NodeRecord, TopologyCache}
use directswarm.Dispatch.Select.{public_dialable, select_storers}
use directswarm.Dispatch.Select.Ranked.{IsRanked, select_storers-IsRanked}

abbrev node : ℕ → NodeRecord
node b = record {
  overlay = replicate 32 b;
  underlays = codes "/ip4/10.0.0.1/tcp/1634" ∷ codes "/ip4/65.1.2.3/tcp/1634" ∷ [];
  rtt_ms = some 40;
  last_seen_tick = 1;
  dialed_ok = true;
}

abbrev cache : TopologyCache
cache = record {
  reference = replicate 32 0;
  nodes = (replicate 32 0x80, node 0x80) ∷ (replicate 32 0x81, node 0x81) ∷ [];
}

abbrev peers : Store
peers = (replicate 32 0x81, record unknown { service_cps_x10 = 300 }) ∷ []

private_skipped : public_dialable (λ u. some u) (codes "/ip4/10.0.0.1/tcp/1634") ≡ none
unfolding public_dialable strip_prefix
private_skipped = refl

select_storers-IsRanked_example :
    All (IsRanked 1) (select_storers (λ u. some u) cache (replicate 32 0xff ∷ []) 1 peers)
select_storers-IsRanked_example =
    select_storers-IsRanked (λ u. some u) cache (replicate 32 0xff ∷ []) 1 peers
      (omega arith, (omega arith, tt))
