-- ===== src/PeerState/Merge.antt =====
-- What a sequence of observations leaves behind, against the history.
use directswarm.Base.{
  ℕ, ◌+◌, ◌≤◌, ◌≡◌, refl, ap, ◌∙◌, List, [], ◌∷◌, Option, none, some, arith, max, min, map, sum,
  u64_max, if◌then◌else◌, lookup, bytes_eq, bytes_beq, bytes_beq_iff, lookup-insert, Bool-cases,
  inl, inr,
}
use directswarm.PeerState.{
  PeerState, PeerObservation, Store, unknown, merge, get, or_default, observe, or_keep,
  or_keep_option,
}

-- One remembered event: whose it was, what was seen, and when.
abbrev pub Event : Type 0
Event = List ℕ × PeerObservation × ℕ

-- The store after a history.
unfoldable pub replay : Store → List Event → Store
replay m [] = m
replay m ((overlay, obs, unix) ∷ es) = replay (observe m overlay obs unix) es

-- The observations of one peer in a history, in order.
pub own : List ℕ → List Event → List (PeerObservation × ℕ)
own k [] = []
own k ((overlay, obs, unix) ∷ es) = if bytes_beq overlay k then (obs, unix) ∷ own k es else own k es

pub merge_all : PeerState → List (PeerObservation × ℕ) → PeerState
merge_all s [] = s
merge_all s ((obs, unix) ∷ os) = merge_all (merge s obs unix) os

get-observe :
    (m : Store) (k overlay : List ℕ) (obs : PeerObservation) (unix : ℕ)
    → or_default (get (observe m overlay obs unix) k) ≡ (
        if bytes_beq overlay k then merge (or_default (get m k)) obs unix else or_default (get m k))
unfolding get observe
get-observe m k overlay obs unix = elim (Bool-cases (bytes_beq overlay k)) [
  | inl same ↦
      rw (lookup-insert overlay k (merge (or_default (lookup overlay m)) obs unix) m, same)
        (ap (λ a. merge (or_default (lookup a m)) obs unix) ((bytes_beq_iff overlay k).0 same))
  | inr other ↦
      rw (lookup-insert overlay k (merge (or_default (lookup overlay m)) obs unix) m, other)
]

get-replay :
    (m : Store) (k : List ℕ) (es : List Event)
    → or_default (get (replay m es) k) ≡ merge_all (or_default (get m k)) (own k es)
unfolding replay own merge_all
get-replay m k [] = refl
get-replay m k ((overlay, obs, unix) ∷ es) = elim (Bool-cases (bytes_beq overlay k)) [
  | inl same ↦
      get-replay (observe m overlay obs unix) k es ∙ rw (get-observe m k overlay obs unix, same)
  | inr other ↦
      get-replay (observe m overlay obs unix) k es ∙ rw (get-observe m k overlay obs unix, other)
]

-- The largest number, and the last value that is there.
abbrev pub max_from : ℕ → List ℕ → ℕ
max_from n [] = n
max_from n (x ∷ xs) = max_from (max n x) xs

abbrev pub last_from : Option ℕ → List (Option ℕ) → Option ℕ
last_from o [] = o
last_from o (x ∷ xs) = last_from (or_keep_option x o) xs

some-or_keep : (o : Option ℕ) (n : ℕ) → some (or_keep o n) ≡ or_keep_option o (some n)
some-or_keep none n = refl
some-or_keep (some m) n = refl

-- What a list of observations makes of a record, field by field.
abbrev pub Summary : PeerState → List (PeerObservation × ℕ) → PeerState → Type 0
Summary s os r =
    (r.threshold_last ≡ max_from s.threshold_last (map (λ o. o.0.threshold) os))
    × (r.lambda_ms ≡ last_from s.lambda_ms (map (λ o. o.0.lambda_ms) os))
    × (r.settled_units
        ≡ min (s.settled_units + sum (map (λ o. o.0.settled_units_delta) os)) u64_max)
    × (some r.surplus_units
        ≡ last_from (some s.surplus_units) (map (λ o. o.0.surplus_units_abs) os))

merge_all-Summary :
    (s : PeerState) (os : List (PeerObservation × ℕ))
    → s.settled_units ≤ u64_max
    → Summary s os (merge_all s os)
unfolding merge_all merge
merge_all-Summary s [] h = (refl, refl, omega arith, refl)
merge_all-Summary s ((obs, unix) ∷ os) h =
    let (t, l, u, v) = merge_all-Summary (merge s obs unix) os (omega arith) in
    (
      t,
      l,
      omega (arith, u),
      v
          ∙ ap (λ o. last_from o (map (λ (o : PeerObservation × ℕ). o.0.surplus_units_abs) os))
              (some-or_keep obs.surplus_units_abs s.surplus_units),
    )

-- After any history that begins with an empty store, the record of each peer holds the largest
-- threshold, the latest measured latency, the saturated sum of the settled units and the latest
-- surplus of its own observations; those of other peers never show.
pub replay-Summary :
    (k : List ℕ) (es : List Event) → Summary unknown (own k es) (or_default (get (replay [] es) k))
replay-Summary k es =
    rw (get-replay [] k es)
      (unfold get lookup in merge_all-Summary unknown (own k es) (omega arith))
