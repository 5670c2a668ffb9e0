-- ===== src/Crawl/Distinct.antt =====
-- Lists in which everything stands once.
use directswarm.Base.{
  ◌≡◌, sym, inl, inr, true, false, List, [], ◌∷◌, ◌++◌, any, Eq, arith, In, In-append,
  In-append_right, Bool-cases,
}

module _ {A : Type 0} where
  abbrev pub AllDistinct : List A → Type 0
  AllDistinct [] = Unit {0}
  AllDistinct (x ∷ xs) = (¬ In x xs) × AllDistinct xs

  pub AllDistinct-append_one :
      (xs : List A) (y : A) → AllDistinct xs → ¬ In y xs → AllDistinct (xs ++ y ∷ [])
  AllDistinct-append_one [] y h n = ((λ m. m), tt)
  AllDistinct-append_one (x ∷ xs) y (fresh, h) n = (
    λ m. elim (In-append x xs (y ∷ []) m) [
      | inl there ↦ fresh there
      | inr (inl same) ↦ n (inl (sym same))
      | inr (inr none) ↦ none
    ],
    AllDistinct-append_one xs y h (λ m. n (inr m)),
  )

  -- What stands behind a part does not stand in it.
  pub AllDistinct-middle :
      (xs : List A) (y : A) (zs : List A) → AllDistinct (xs ++ y ∷ zs) → ¬ In y xs
  AllDistinct-middle [] y zs h m = m
  AllDistinct-middle (x ∷ xs) y zs (fresh, h) (inl same) =
      fresh (In-append_right x xs (y ∷ zs) (inl (sym same)))
  AllDistinct-middle (x ∷ xs) y zs (fresh, h) (inr m) = AllDistinct-middle xs y zs h m

  module _ ⦃e : Eq A⦄ where
    pub not_In-any : (y : A) (xs : List A) → any (e.beq y) xs ≡ false → ¬ In y xs
    not_In-any y [] h m = m
    not_In-any y (x ∷ xs) h (inl same) = ground (arith, e.beq_iff y x, h)
    not_In-any y (x ∷ xs) h (inr m) = not_In-any y xs (ground (arith, h)) m

    pub In-any : (y : A) (xs : List A) → any (e.beq y) xs ≡ true → In y xs
    In-any y [] h = absurd (cc)
    In-any y (x ∷ xs) h = elim (Bool-cases (e.beq y x)) [
      | inl same ↦ inl ((e.beq_iff y x).0 same)
      | inr other ↦ inr (In-any y xs (ground (arith, h, other)))
    ]
