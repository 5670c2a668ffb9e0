-- ===== src/Topology/Records.antt =====
-- What any sequence of records leaves in the cache.
use mathlib.Core.Path.{subst}
use directswarm.Base.{
  ℕ, ◌≡◌, refl, ap, sym, ◌∙◌, Bool, true, List, [], ◌∷◌, ◌++◌, Option, none, some, arith, max, keep,
  any, if◌then◌else◌, lookup, bytes_eq, bytes_beq, bytes_beq_iff, lookup-insert, Bool-cases, inl,
  inr, ◌||◌,
}
use directswarm.Swarm.{SwarmAddress}
use directswarm.Topology.{
  NodeRecord, TopologyCache, contains, push_new, or_else, refresh_node, merged, upsert, get_node,
}

abbrev pub upsert_all : TopologyCache → List NodeRecord → TopologyCache
upsert_all c [] = c
upsert_all c (r ∷ rs) = upsert_all (upsert c r) rs

-- The records of one node.
abbrev pub own : SwarmAddress → List NodeRecord → List NodeRecord
own k = keep (λ r. bytes_beq r.overlay k)

abbrev pub newest : ℕ → List NodeRecord → ℕ
newest n [] = n
newest n (r ∷ rs) = newest (max n r.last_seen_tick) rs

abbrev pub last_rtt : Option ℕ → List NodeRecord → Option ℕ
last_rtt o [] = o
last_rtt o (r ∷ rs) = last_rtt (or_else r.rtt_ms o) rs

abbrev pub announces : List ℕ → NodeRecord → Bool
announces u r = contains u r.underlays

-- The node as the first record and all the later ones say.
pub record Seen (first : NodeRecord) (later : List NodeRecord) (r : NodeRecord) : Type 0 where
  pub tick : r.last_seen_tick ≡ newest first.last_seen_tick later
  pub dialed : r.dialed_ok ≡ any (λ s. s.dialed_ok) (first ∷ later)
  pub rtt : r.rtt_ms ≡ last_rtt first.rtt_ms later
  pub where_to : (u : List ℕ) → contains u r.underlays ≡ any (announces u) (first ∷ later)

abbrev refresh_all : NodeRecord → List NodeRecord → NodeRecord
refresh_all e [] = e
refresh_all e (r ∷ rs) = refresh_all (refresh_node e r) rs

any-append-one :
    (u : List ℕ) (us : List (List ℕ)) (v : List ℕ)
    → contains u (us ++ v ∷ []) ≡ (contains u us || bytes_beq u v)
any-append-one u [] v = ground arith
any-append-one u (w ∷ us) v = ground (arith, any-append-one u us v)

contains-push_new :
    (u : List ℕ) (us more : List (List ℕ))
    → contains u (push_new us more) ≡ (contains u us || contains u more)
unfolding push_new
contains-push_new u us [] = ground arith
contains-push_new u us (v ∷ more) = elim (Bool-cases (contains v us)) [
  | inl known ↦ rw known (contains-push_new u us more ∙ absorbed known)
  | inr new ↦
      rw new (contains-push_new u (us ++ v ∷ []) more ∙ ground (arith, any-append-one u us v))
]
  where
    absorbed :
        contains v us ≡ true
        → (contains u us || contains u more) ≡ (contains u us || contains u (v ∷ more))
    absorbed known = elim (Bool-cases (bytes_beq u v)) [
      | inl same ↦
          let found = ap (λ w. contains w us) ((bytes_beq_iff u v).0 same) ∙ known in rw found refl
      | inr other ↦ rw other refl
    ]

refresh_all-Seen : (e : NodeRecord) (rs : List NodeRecord) → Seen e rs (refresh_all e rs)
refresh_all-Seen e [] = record {
  tick = refl;
  dialed = ground arith;
  rtt = refl;
  where_to = λ u. ground arith;
}
refresh_all-Seen e (r ∷ rs) =
    let ih = refresh_all-Seen (refresh_node e r) rs in
    record {
      tick = ih.tick;
      dialed = ground (arith, ih.dialed);
      rtt = ih.rtt;
      where_to = λ u. ground (arith, ih.where_to u, contains-push_new u e.underlays r.underlays);
    }

abbrev merge_own : Option NodeRecord → List NodeRecord → Option NodeRecord
merge_own none [] = none
merge_own none (r ∷ rs) = some (refresh_all r rs)
merge_own (some e) rs = some (refresh_all e rs)

merge_own-cons :
    (o : Option NodeRecord) (r : NodeRecord) (rs : List NodeRecord)
    → merge_own (some (merged o r)) rs ≡ merge_own o (r ∷ rs)
merge_own-cons none r rs = refl
merge_own-cons (some e) r rs = refl

get_node-upsert :
    (c : TopologyCache) (r : NodeRecord) (k : SwarmAddress)
    → get_node (upsert c r) k
      ≡ (if bytes_beq r.overlay k then some (merged (get_node c k) r) else get_node c k)
unfolding get_node upsert
get_node-upsert c r k = elim (Bool-cases (bytes_beq r.overlay k)) [
  | inl same ↦
      rw (lookup-insert r.overlay k (merged (lookup r.overlay c.nodes) r) c.nodes, same)
        (ap (λ a. some (merged (lookup a c.nodes) r)) ((bytes_beq_iff r.overlay k).0 same))
  | inr other ↦
      rw (lookup-insert r.overlay k (merged (lookup r.overlay c.nodes) r) c.nodes, other) refl
]

get_node-upsert_all :
    (c : TopologyCache) (rs : List NodeRecord) (k : SwarmAddress)
    → get_node (upsert_all c rs) k ≡ merge_own (get_node c k) (own k rs)
get_node-upsert_all c [] k = nothing (get_node c k)
  where
    nothing : (o : Option NodeRecord) → o ≡ merge_own o []
    nothing none = refl
    nothing (some e) = refl
get_node-upsert_all c (r ∷ rs) k = elim (Bool-cases (bytes_beq r.overlay k)) [
  | inl same ↦
      get_node-upsert_all (upsert c r) rs k
      ∙ rw (get_node-upsert c r k, same) (merge_own-cons (get_node c k) r (own k rs))
  | inr other ↦ get_node-upsert_all (upsert c r) rs k ∙ rw (get_node-upsert c r k, other) refl
]

abbrev pub empty_cache : SwarmAddress → TopologyCache
empty_cache reference = record { reference = reference; nodes = [] }

-- What the cache holds for a node, by the records of that node.
abbrev pub Kept : Option NodeRecord → List NodeRecord → Type 0
Kept none [] = Unit
Kept none (r ∷ rs) = ⊥
Kept (some r) [] = ⊥
Kept (some r) (first ∷ later) = Seen first later r

merge_own-Kept : (rs : List NodeRecord) → Kept (merge_own none rs) rs
merge_own-Kept [] = tt
merge_own-Kept (r ∷ rs) = refresh_all-Seen r rs

-- After any sequence of records, an empty cache holds a node exactly when there was a record of it,
-- and then with the newest tick, dialled if any record says so, with the last round trip that was
-- measured, and with exactly the underlays that some record of it announces.
pub upsert_all-Kept :
    (reference : SwarmAddress) (rs : List NodeRecord) (k : SwarmAddress)
    → Kept (get_node (upsert_all (empty_cache reference) rs) k) (own k rs)
upsert_all-Kept reference rs k =
    subst (λ o. Kept o (own k rs))
      (sym (get_node-upsert_all (empty_cache reference) rs k ∙ none_yet))
      (merge_own-Kept (own k rs))
  where
    none_yet : merge_own (get_node (empty_cache reference) k) (own k rs) ≡ merge_own none (own k rs)
    none_yet = unfold get_node lookup in refl
