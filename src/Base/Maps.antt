-- ===== src/Base/Maps.antt =====
-- Equality as an instance, and hash maps as association lists whose order is arbitrary.
use Prim.Native.Nat.{ℕ}
use mathlib.Core.Bool.{Bool, true, false, ◌&&◌}
use mathlib.Core.List.{List, [], ◌∷◌}
use mathlib.Core.Logic.{◌↔◌, inl, inr}
use mathlib.Core.Option.{Option, none, some}
use mathlib.Core.Path.{◌≡◌, refl, ap, sym, ◌∙◌}
use native.Mathlib.Omega.{arith}
use directswarm.Base.Tests.{◌==◌, ==_iff, if◌then◌else◌, Bool-cases}

pub record Eq {ℓ} (A : Type ℓ) : Type ℓ where
  pub beq : A → A → Bool
  pub beq_iff : (a b : A) → (beq a b ≡ true) ↔ (a ≡ b)

instance abbrev pub nat_eq : Eq ℕ
nat_eq = record { beq = ◌==◌; beq_iff = ==_iff }

abbrev pub bytes_beq : List ℕ → List ℕ → Bool
bytes_beq [] [] = true
bytes_beq [] (y ∷ ys) = false
bytes_beq (x ∷ xs) [] = false
bytes_beq (x ∷ xs) (y ∷ ys) = (x == y) && bytes_beq xs ys

pub bytes_beq_iff : (a b : List ℕ) → (bytes_beq a b ≡ true) ↔ (a ≡ b)
bytes_beq_iff [] [] = ground arith
bytes_beq_iff [] (y ∷ ys) = ground arith
bytes_beq_iff (x ∷ xs) [] = ground arith
bytes_beq_iff (x ∷ xs) (y ∷ ys) = ground (arith, bytes_beq_iff xs ys)

instance abbrev pub bytes_eq : Eq (List ℕ)
bytes_eq = record { beq = bytes_beq; beq_iff = bytes_beq_iff }

module _ {ℓ κ} {K : Type ℓ} {V : Type κ} ⦃e : Eq K⦄ where
  -- `HashMap::get`.
  unfoldable pub lookup : K → List (K × V) → Option V
  lookup k [] = none
  lookup k ((j, v) ∷ m) = if e.beq j k then some v else lookup k m

  unfoldable pub contains_key : K → List (K × V) → Bool
  contains_key k m = elim (lookup k m) [ none ↦ false | some v ↦ true ]

  -- `HashMap::insert`: replaces the value of a key that is there.
  unfoldable pub insert : K → V → List (K × V) → List (K × V)
  insert k v [] = (k, v) ∷ []
  insert k v ((j, w) ∷ m) = if e.beq j k then (k, v) ∷ m else (j, w) ∷ insert k v m

  -- `HashMap::remove`.
  unfoldable pub remove : K → List (K × V) → List (K × V)
  remove k [] = []
  remove k ((j, w) ∷ m) = if e.beq j k then remove k m else (j, w) ∷ remove k m

  -- `get(k).copied().unwrap_or(d)`.
  unfoldable pub lookup_or : V → K → List (K × V) → V
  lookup_or d k m = elim (lookup k m) [ none ↦ d | some v ↦ v ]

  pub lookup-insert :
      (k j : K) (v : V) (m : List (K × V))
      → lookup j (insert k v m) ≡ (if e.beq k j then some v else lookup j m)
  unfolding lookup insert
  lookup-insert k j v [] = refl
  lookup-insert k j v ((i, w) ∷ m) =
      ground (arith, e.beq_iff k j, e.beq_iff i k, e.beq_iff i j, lookup-insert k j v m)

  pub lookup-remove :
      (k j : K) (m : List (K × V))
      → lookup j (remove k m) ≡ (if e.beq k j then none else lookup j m)
  unfolding lookup remove
  lookup-remove k j [] = ground arith
  lookup-remove k j ((i, w) ∷ m) =
      ground (arith, e.beq_iff k j, e.beq_iff i k, e.beq_iff i j, lookup-remove k j m)

  pub lookup_or-insert :
      (d : V) (k j : K) (v : V) (m : List (K × V))
      → lookup_or d j (insert k v m) ≡ (if e.beq k j then v else lookup_or d j m)
  unfolding lookup_or
  lookup_or-insert d k j v m = ground (arith, lookup-insert k j v m)

  pub lookup_or-remove :
      (d : V) (k j : K) (m : List (K × V))
      → lookup_or d j (remove k m) ≡ (if e.beq k j then d else lookup_or d j m)
  unfolding lookup_or
  lookup_or-remove d k j m = ground (arith, lookup-remove k j m)

  pub lookup_or-cons :
      (d : V) (k j : K) (v : V) (m : List (K × V))
      → lookup_or d j ((k, v) ∷ m) ≡ (if e.beq k j then v else lookup_or d j m)
  unfolding lookup_or lookup
  lookup_or-cons d k j v m = ground arith

module _ {ℓ κ} {K : Type ℓ} {V : Type κ} ⦃e : Eq K⦄ where
  -- No key stands twice.
  abbrev pub Distinct : List (K × V) → Type κ
  Distinct [] = Unit
  Distinct ((k, v) ∷ m) = (lookup k m ≡ none) × Distinct m

  -- The entries inserted one after the other, as a file is loaded.
  unfoldable pub insert_all : List (K × V) → List (K × V) → List (K × V)
  insert_all [] m = m
  insert_all ((k, v) ∷ es) m = insert_all es (insert k v m)

  pub lookup-insert_all :
      (es m : List (K × V)) (k : K)
      → Distinct es
      → lookup k (insert_all es m) ≡ elim (lookup k es) [ none ↦ lookup k m | some v ↦ some v ]
  unfolding insert_all lookup
  lookup-insert_all [] m k d = refl
  lookup-insert_all ((j, v) ∷ es) m k (fresh, d) =
      lookup-insert_all es (insert j v m) k d
      ∙ ap (λ r. elim (lookup k es) [ none ↦ r | some w ↦ some w ]) (lookup-insert j k v m)
      ∙ elim (Bool-cases (e.beq j k)) [
        | inl same ↦
            let absent = ap (λ x. lookup x es) (sym ((e.beq_iff j k).0 same)) ∙ fresh in
            rw (absent, same) refl
        | inr other ↦
            ap
              (λ b. elim (lookup k es) [
                | none ↦ if b then some v else lookup k m
                | some w ↦ some w
              ])
              other
            ∙ rw other refl
      ]

  -- A map loaded from nothing has the entries.
  pub lookup-load :
      (es : List (K × V)) (k : K) → Distinct es → lookup k (insert_all es []) ≡ lookup k es
  unfolding lookup
  lookup-load es k d = lookup-insert_all es [] k d ∙ same (lookup k es)
    where
      same : (o : Option V) → (elim o [ none ↦ none | some v ↦ some v ]) ≡ o
      same none = refl
      same (some v) = refl

-- The keys, in the order in which an iteration meets them.
abbrev pub keys {ℓ κ} : {K : Type ℓ} {V : Type κ} → List (K × V) → List K
keys [] = []
keys ((k, v) ∷ m) = k ∷ keys m
