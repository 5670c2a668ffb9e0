-- ===== src/Dispatch/Select/Ranked.antt =====
-- The buckets of `select_storers`: their members, and the order of these.
use mathlib.Core.Path.{subst}
use directswarm.Base.{
  ℕ, ◌+◌, ◌-◌, ◌*◌, ◌^◌, ◌≤◌, ◌<◌, ◌≡◌, refl, ap, sym, ◌∙◌, Bool, true, false, List, [], ◌∷◌, ◌++◌,
  map, Option, none, some, ltb, if◌then◌else◌, unwrap_or, ◌>>=◌, arith, inl, inr, Bool-cases,
  ==_iff, ◌==◌, All, All-append, Ascending, lookup_or, lookup_or-cons, insert, contains_key, nat_eq,
  u32_max, u64_max, sort_by_key, sort_by_key-Ascending, All-sort_by_key,
}
use directswarm.Swarm.{SwarmAddress, bucket_prefix}
use directswarm.Wire.{Bytes}
use directswarm.PeerState.{PeerState, Store, get, or_default}
use directswarm.Topology.{NodeRecord, TopologyCache, records}
use directswarm.Dispatch.{Member}
use directswarm.Dispatch.Select.{
  public_dialable, first_of, Candidate, ranked, rank, Buckets, count_buckets, push_candidate,
  consider_record, collect, member, sorted_members, select_storers,
}

-- A candidate of a bucket, its numbers in the ranges of their types.
pub record IsCandidate (depth p : ℕ) (c : Candidate) : Type 0 where
  pub bucket : bucket_prefix c.overlay depth ≡ p
  pub rate_fits : c.inverse_rate ≤ u64_max
  pub class_fits : c.class < 3
  pub threshold_fits : c.inverse_threshold ≤ u64_max
  pub rtt_fits : c.rtt ≤ u32_max

abbrev AllIn : ℕ → ℕ × List Candidate → Type 0
AllIn depth (p, cands) = All (IsCandidate depth p) cands

-- The round trip time of a record is a 32-bit number.
abbrev pub HasRtt : NodeRecord → Type 0
HasRtt n = unwrap_or n.rtt_ms u32_max ≤ u32_max

abbrev pub Descending : List Member → Type 0
Descending [] = Unit
Descending (m ∷ ms) = All (λ k. k.1 ≤ m.1) ms × Descending ms

-- The members of a bucket lie in it, best rate first.
abbrev pub IsRanked : ℕ → ℕ × List Member → Type 0
IsRanked depth (p, ms) =
    All (λ m. (m.0.prefix ≡ p) × (bucket_prefix m.0.overlay depth ≡ p)) ms × Descending ms

ranked-IsCandidate :
    (depth : ℕ) (ps : PeerState) (n : NodeRecord) (underlay : Bytes)
    → HasRtt n
    → IsCandidate depth (bucket_prefix n.overlay depth) (ranked ps n underlay)
ranked-IsCandidate depth ps n underlay h = record {
  bucket = refl;
  rate_fits = omega arith;
  class_fits = ground arith;
  threshold_fits = omega arith;
  rtt_fits = h;
}

lookup_or-AllIn :
    (depth p : ℕ) (buckets : Buckets)
    → All (AllIn depth) buckets
    → All (IsCandidate depth p) (lookup_or [] p buckets)
unfolding lookup_or directswarm.Base.lookup
lookup_or-AllIn depth p [] h = tt
lookup_or-AllIn depth p ((q, cands) ∷ buckets) (hq, h) = elim (Bool-cases (q == p)) [
  | inl same ↦
      let e : lookup_or [] p ((q, cands) ∷ buckets) ≡ cands =
        lookup_or-cons [] q p cands buckets ∙ rw same refl in
      subst (All (IsCandidate depth p)) (sym e)
        (subst (λ x. All (IsCandidate depth x) cands) ((==_iff q p).0 same) hq)
  | inr other ↦
      let e : lookup_or [] p ((q, cands) ∷ buckets) ≡ lookup_or [] p buckets =
        lookup_or-cons [] q p cands buckets ∙ rw other refl in
      subst (All (IsCandidate depth p)) (sym e) (lookup_or-AllIn depth p buckets h)
]

insert-AllIn :
    (depth p : ℕ) (cands : List Candidate) (buckets : Buckets)
    → All (IsCandidate depth p) cands
    → All (AllIn depth) buckets
    → All (AllIn depth) (insert p cands buckets)
unfolding insert
insert-AllIn depth p cands [] hc h = (hc, tt)
insert-AllIn depth p cands ((q, old) ∷ buckets) hc (hq, h) = elim (Bool-cases (q == p)) [
  | inl same ↦ rw same (hc, h)
  | inr other ↦ rw other (hq, insert-AllIn depth p cands buckets hc h)
]

consider_record-AllIn :
    (parse : List ℕ → Option Bytes) (peers : Store) (depth : ℕ) (counts : List (ℕ × ℕ))
    (n : NodeRecord) (buckets : Buckets)
    → HasRtt n
    → All (AllIn depth) buckets
    → All (AllIn depth) (consider_record parse peers depth counts n buckets)
unfolding consider_record
consider_record-AllIn parse peers depth counts n buckets hn h =
    elim (Bool-cases (contains_key (bucket_prefix n.overlay depth) counts)) [
      | inl needed ↦ rw needed (go (first_of (public_dialable parse) n.underlays))
      | inr idle ↦ rw idle h
    ]
  where
    go :
        (o : Option Bytes)
        → All (AllIn depth) (
            push_candidate
              (bucket_prefix n.overlay depth)
              (o >>= λ underlay. some (ranked (or_default (get peers n.overlay)) n underlay))
              buckets)
    go none = h
    go (some underlay) =
        insert-AllIn depth (bucket_prefix n.overlay depth) _ buckets
          (All-append (IsCandidate depth (bucket_prefix n.overlay depth))
            (lookup_or [] (bucket_prefix n.overlay depth) buckets) _
            (lookup_or-AllIn depth (bucket_prefix n.overlay depth) buckets h)
            (ranked-IsCandidate depth (or_default (get peers n.overlay)) n underlay hn, tt))
          h

collect-AllIn :
    (parse : List ℕ → Option Bytes) (peers : Store) (depth : ℕ) (counts : List (ℕ × ℕ))
    (ns : List NodeRecord) (buckets : Buckets)
    → All HasRtt ns
    → All (AllIn depth) buckets
    → All (AllIn depth) (collect parse peers depth counts ns buckets)
unfolding collect
collect-AllIn parse peers depth counts [] buckets hn h = h
collect-AllIn parse peers depth counts (n ∷ ns) buckets (hn, hs) h =
    collect-AllIn parse peers depth counts ns (consider_record parse peers depth counts n buckets)
      hs (consider_record-AllIn parse peers depth counts n buckets hn h)

-- The order of the ranks is that of the rates first.
rank-rate :
    (depth p : ℕ) (a b : Candidate)
    → IsCandidate depth p a
    → IsCandidate depth p b
    → rank a ≤ rank b
    → u64_max - b.inverse_rate ≤ u64_max - a.inverse_rate
rank-rate depth p a b ha hb h = omega (arith, ha, hb)

All-Descending :
    (depth p : ℕ) (c : Candidate) (cs : List Candidate)
    → IsCandidate depth p c
    → All (IsCandidate depth p) cs
    → All (λ d. rank c ≤ rank d) cs
    → All (λ k. k.1 ≤ u64_max - c.inverse_rate) (map (member p) cs)
All-Descending depth p c [] hc h a = tt
All-Descending depth p c (d ∷ cs) hc (hd, h) (le, a) =
    (rank-rate depth p c d hc hd le, All-Descending depth p c cs hc h a)

members-IsRanked :
    (depth p : ℕ) (cs : List Candidate)
    → All (IsCandidate depth p) cs
    → Ascending rank cs
    → IsRanked depth (p, map (member p) cs)
members-IsRanked depth p [] h a = (tt, tt)
members-IsRanked depth p (c ∷ cs) (hc, h) (le, a) =
    let (inside, falling) = members-IsRanked depth p cs h a in
    (((refl, hc.bucket), inside), (All-Descending depth p c cs hc h le, falling))

sorted_members-IsRanked :
    (depth : ℕ) (buckets : Buckets)
    → All (AllIn depth) buckets
    → All (IsRanked depth) (map sorted_members buckets)
sorted_members-IsRanked depth [] h = tt
sorted_members-IsRanked depth ((p, cands) ∷ buckets) (hp, h) = (
  members-IsRanked depth p (sort_by_key rank cands)
      (All-sort_by_key rank (IsCandidate depth p) cands hp) (sort_by_key-Ascending rank cands),
  sorted_members-IsRanked depth buckets h,
)

-- In a cache whose round trip times are 32-bit numbers, every bucket that is handed to the
-- dispatcher has only members whose address lies in that bucket, in falling order of their
-- effective rates.
pub select_storers-IsRanked :
    (parse : List ℕ → Option Bytes) (cache : TopologyCache) (needed : List SwarmAddress) (depth : ℕ)
    (peers : Store)
    → All HasRtt (records cache)
    → All (IsRanked depth) (select_storers parse cache needed depth peers)
unfolding select_storers
select_storers-IsRanked parse cache needed depth peers h =
    sorted_members-IsRanked depth _
      (collect-AllIn parse peers depth (count_buckets depth needed []) (records cache) [] h tt)
