-- ===== src/Dispatch.antt =====
-- `WorkPool` and `Dispatch` of rust/ds-net/src/schedule.rs: the work buckets, and the dispatcher
-- that
-- dials the unused member of the most critical bucket. The arbitrary order of a hash map is the
-- order
-- of its association list.
pub mod Bound
pub mod Routing
pub mod Popping
pub mod Critical
pub mod Loop
pub mod Select
mod Tests
use directswarm.Base.{
  ℕ, zero, suc, ◌+◌, ◌-◌, ◌*◌, ◌/◌, ◌^◌, max, min, Bool, true, false, List, [], ◌∷◌, ◌++◌, Option,
  none, some, ltb, ◌==◌, ◌&&◌, not, if◌then◌else◌, length, is_empty, keep, map, nat_eq, keys,
  lookup, insert, remove, lookup_or, unwrap_or, wrap_add, u128_max, ◌>>=◌,
}
use directswarm.Wire.{Bytes}

pub record Selected : Type 0 where
  pub underlay : Bytes
  pub overlay : Bytes
  pub prefix : ℕ

-- A candidate with its effective rate.
abbrev pub Member : Type 0
Member = Selected × ℕ

-- `Vec::pop`: the last element and the rest.
abbrev pub pop_back {ℓ} : {A : Type ℓ} → List A → List A × Option A
pop_back [] = ([], none)
pop_back (x ∷ []) = ([], some x)
pop_back (x ∷ y ∷ xs) = let r = pop_back (y ∷ xs) in (x ∷ r.0, r.1)

-- `WorkPool`: the chunks of each bucket that are still to be fetched.
abbrev pub Pool : Type 0
Pool = List (ℕ × List Bytes)

unfoldable pub pop : Pool → ℕ → Pool × Option Bytes
pop pool prefix = elim (lookup prefix pool) [
  | none ↦ (pool, none)
  | some bucket ↦ (insert prefix (pop_back bucket).0 pool, (pop_back bucket).1)
]

unfoldable pub remaining : Pool → ℕ → ℕ
remaining pool prefix = length (lookup_or [] prefix pool)

unfoldable pub drain_all : Pool → Pool × List Bytes
drain_all pool = ([], flat pool)
  where
    flat : Pool → List Bytes
    flat [] = []
    flat ((prefix, bucket) ∷ rest) = bucket ++ flat rest

pub record Dispatch : Type 0 where
  pub cands : List (ℕ × List Member)
  pub used : List (ℕ × List Member)
  pub recycles : List (ℕ × ℕ)
  pub active_rate : List (ℕ × ℕ)
  pub active_n : List (ℕ × ℕ)

unfoldable pub fresh_dispatch : List (ℕ × List Member) → Dispatch
fresh_dispatch cands = record {
  cands = cands;
  used = [];
  recycles = [];
  active_rate = [];
  active_n = [];
}

-- The three maps at a bucket.
unfoldable pub unused : Dispatch → ℕ → List Member
unused d p = lookup_or [] p d.cands

unfoldable pub dialled : Dispatch → ℕ → List Member
dialled d p = lookup_or [] p d.used

unfoldable pub rounds : Dispatch → ℕ → ℕ
rounds d p = lookup_or 0 p d.recycles

-- A bucket whose members are all used, and that is idle with work left, is tried again.
unfoldable pub is_exhausted : Pool → Dispatch → ℕ → Bool
is_exhausted pool d p =
    not (is_empty (dialled d p))
    && is_empty (unused d p)
    && (lookup_or 0 p d.active_n == 0)
    && not (ltb (remaining pool p) 30)
    && ltb (rounds d p) 3

unfoldable pub recycle : Dispatch → ℕ → Dispatch
recycle d p = record d {
  cands = insert p (dialled d p) d.cands;
  used = remove p d.used;
  recycles = insert p (rounds d p + 1) d.recycles;
}

abbrev pub recycle_all : Dispatch → List ℕ → Dispatch
recycle_all d [] = d
recycle_all d (p ∷ ps) = recycle_all (recycle d p) ps

unfoldable pub refill : Pool → Dispatch → List ℕ
refill pool d = keep (is_exhausted pool d) (keys d.used)

-- How much a bucket threatens the finish; none for a bucket that needs no member.
unfoldable pub criticality : Pool → Dispatch → ℕ → Option ℕ
criticality pool d p =
    let rem = remaining pool p in
    let rate = lookup_or 0 p d.active_rate in
    if is_empty (unused d p)
    then none
    else if rem == 0
    then none
    else if ltb rem 30 && ltb 0 (lookup_or 0 p d.active_n)
    then none
    else some (if rate == 0 then u128_max / 2 + rem else min (rem * 10_000) u128_max / rate)

-- One round of the loop over the buckets: a bucket that is strictly more critical takes over.
unfoldable pub better : Option (ℕ × ℕ) → Option ℕ → ℕ → Option (ℕ × ℕ)
better best none p = best
better none (some crit) p = some (crit, p)
better (some (c, q)) (some crit) p = if ltb c crit then some (crit, p) else some (c, q)

unfoldable pub best_of : Pool → Dispatch → Option (ℕ × ℕ) → List ℕ → Option (ℕ × ℕ)
best_of pool d best [] = best
best_of pool d best (p ∷ ps) = best_of pool d (better best (criticality pool d p) p) ps

-- The chosen bucket's first member becomes active.
unfoldable pub dial : Dispatch → ℕ → List Member → Dispatch × Option Member
dial d p [] = (d, none)
dial d p (member ∷ rest) = (
  record {
    cands = insert p rest d.cands;
    used = insert p (dialled d p ++ member ∷ []) d.used;
    recycles = d.recycles;
    active_rate = insert p (wrap_add (lookup_or 0 p d.active_rate) (max member.1 1)) d.active_rate;
    active_n = insert p (lookup_or 0 p d.active_n + 1) d.active_n;
  },
  some member,
)

abbrev pub refilled : Pool → Dispatch → Dispatch
refilled pool d = recycle_all d (refill pool d)

abbrev pub dial_best : Dispatch → Option (ℕ × ℕ) → Dispatch × Option Member
dial_best d none = (d, none)
dial_best d (some (crit, p)) = dial d p (unused d p)

unfoldable pub next_member : Pool → Dispatch → Dispatch × Option Member
next_member pool d = let d' = refilled pool d in dial_best d' (best_of pool d' none (keys d'.cands))

-- `done`: only a bucket that is there is changed.
abbrev pub modify : (ℕ → ℕ) → ℕ → List (ℕ × ℕ) → List (ℕ × ℕ)
modify f p m = elim (lookup p m) [ none ↦ m | some n ↦ insert p (f n) m ]

unfoldable pub done : Dispatch → ℕ → ℕ → Dispatch
done d p rate = record d {
  active_rate = modify (λ n. n - max rate 1) p d.active_rate;
  active_n = modify (λ n. n - 1) p d.active_n;
}
