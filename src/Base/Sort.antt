-- ===== src/Base/Sort.antt =====
-- `sort_by_key`: a stable sort by a numeric key.
use Prim.Native.Nat.{ℕ, ◌≤◌}
use mathlib.Core.List.{List, [], ◌∷◌, Perm}
use mathlib.Core.List.Perm
use mathlib.Core.Logic.{inl, inr}
use native.Mathlib.Omega.{arith}
use directswarm.Base.Tests.{leb, if◌then◌else◌, Bool-cases}
use directswarm.Base.Lists.{All}

module _ {ℓ} {A : Type ℓ} (key : A → ℕ) where
  -- Before the first element whose key is no smaller.
  unfoldable pub insert_sorted : A → List A → List A
  insert_sorted x [] = x ∷ []
  insert_sorted x (y ∷ ys) = if leb (key x) (key y) then x ∷ (y ∷ ys) else y ∷ insert_sorted x ys

  unfoldable pub sort_by_key : List A → List A
  sort_by_key [] = []
  sort_by_key (x ∷ xs) = insert_sorted x (sort_by_key xs)

  abbrev pub Ascending : List A → Type 0
  Ascending [] = Unit
  Ascending (x ∷ xs) = All (λ y. key x ≤ key y) xs × Ascending xs

  insert_sorted-Perm : (x : A) (xs : List A) → Perm (insert_sorted x xs) (x ∷ xs)
  unfolding insert_sorted
  insert_sorted-Perm x [] = Perm.refl (x ∷ [])
  insert_sorted-Perm x (y ∷ ys) = elim (Bool-cases (leb (key x) (key y))) [
    | inl first ↦ rw first (Perm.refl (x ∷ (y ∷ ys)))
    | inr later ↦ rw later (Perm.trans (Perm.cons y (insert_sorted-Perm x ys)) (Perm.swap x y ys))
  ]

  pub sort_by_key-Perm : (xs : List A) → Perm (sort_by_key xs) xs
  unfolding sort_by_key
  sort_by_key-Perm [] = Perm.refl []
  sort_by_key-Perm (x ∷ xs) =
      Perm.trans (insert_sorted-Perm x (sort_by_key xs)) (Perm.cons x (sort_by_key-Perm xs))

  All-insert_sorted {κ} :
      (P : A → Type κ) (x : A) (xs : List A) → P x → All P xs → All P (insert_sorted x xs)
  unfolding insert_sorted
  All-insert_sorted P x [] px hx = (px, tt)
  All-insert_sorted P x (y ∷ ys) px (py, hy) = elim (Bool-cases (leb (key x) (key y))) [
    | inl first ↦ rw first (px, (py, hy))
    | inr later ↦ rw later (py, All-insert_sorted P x ys px hy)
  ]

  at_least :
      (n : ℕ) (y : A) (ys : List A)
      → n ≤ key y
      → All (λ z. key y ≤ key z) ys
      → All (λ z. n ≤ key z) ys
  at_least n y [] h a = tt
  at_least n y (z ∷ zs) h (hz, a) = (omega arith, at_least n y zs h a)

  insert_sorted-Ascending : (x : A) (xs : List A) → Ascending xs → Ascending (insert_sorted x xs)
  unfolding insert_sorted
  insert_sorted-Ascending x [] h = (tt, tt)
  insert_sorted-Ascending x (y ∷ ys) (hy, h) = elim (Bool-cases (leb (key x) (key y))) [
    | inl first ↦
        let le : key x ≤ key y = ground arith in
        rw first ((le, at_least (key x) y ys le hy), (hy, h))
    | inr later ↦ rw later (
      All-insert_sorted (λ z. key y ≤ key z) x ys (ground arith) hy,
      insert_sorted-Ascending x ys h,
    )
  ]

  pub sort_by_key-Ascending : (xs : List A) → Ascending (sort_by_key xs)
  unfolding sort_by_key
  sort_by_key-Ascending [] = tt
  sort_by_key-Ascending (x ∷ xs) =
      insert_sorted-Ascending x (sort_by_key xs) (sort_by_key-Ascending xs)

  pub All-sort_by_key {κ} : (P : A → Type κ) (xs : List A) → All P xs → All P (sort_by_key xs)
  unfolding sort_by_key
  All-sort_by_key P [] h = tt
  All-sort_by_key P (x ∷ xs) (px, h) =
      All-insert_sorted P x (sort_by_key xs) px (All-sort_by_key P xs h)
