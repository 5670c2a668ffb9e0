-- ===== src/Swarm/Magnitude.antt =====
-- The size of the difference of two addresses, against the number of their leading equal bits.
use Prim.Native.Nat.{bit_xor}
use native.Mathlib.Nat.{pow-le-pow_right, one-le-pow}
use directswarm.Base.Bits.{bit_xor-join, bit_xor-shift, bit_xor-eq-zero}
use directswarm.Base.{
  ℕ, ◌+◌, ◌-◌, ◌*◌, ◌/◌, ◌^◌, ◌≤◌, ◌<◌, ◌≡◌, refl, sym, ◌↔◌, ◌∙◌, ◌⊎◌, dec_lt, [], ◌∷◌, arith, All,
}
use directswarm.Swarm.{SwarmAddress, IsByte, max_po, leading_zeros, proximity_from, proximity}

-- The first byte that differs fixes the order of magnitude of the difference.
abbrev pub join4 : ℕ → ℕ → ℕ → ℕ → ℕ
join4 z₀ z₁ z₂ z₃ = ((z₀ * 256 + z₁) * 256 + z₂) * 256 + z₃

abbrev pub Magnitude : ℕ → ℕ → Type 0
Magnitude z n = (n ≤ 31) × (z < 2 ^ (32 - n)) × (2 ^ (31 - n) ≤ z)

module _ (z₀ z₁ z₂ z₃ : ℕ) (b₀ : z₀ < 256) (b₁ : z₁ < 256) (b₂ : z₂ < 256) (b₃ : z₃ < 256) where
  magnitude₀ : 0 < z₀ → Magnitude (join4 z₀ z₁ z₂ z₃) (leading_zeros z₀)
  unfolding leading_zeros
  magnitude₀ h = ground arith

  magnitude₁ : z₀ ≡ 0 → 0 < z₁ → Magnitude (join4 z₀ z₁ z₂ z₃) (8 + leading_zeros z₁)
  unfolding leading_zeros
  magnitude₁ e h = ground arith

  magnitude₂ : z₀ ≡ 0 → z₁ ≡ 0 → 0 < z₂ → Magnitude (join4 z₀ z₁ z₂ z₃) (16 + leading_zeros z₂)
  unfolding leading_zeros
  magnitude₂ e e' h = ground arith

  magnitude₃ :
      z₀ ≡ 0 → z₁ ≡ 0 → z₂ ≡ 0 → 0 < z₃ → Magnitude (join4 z₀ z₁ z₂ z₃) (24 + leading_zeros z₃)
  unfolding leading_zeros
  magnitude₃ e e' e'' h = ground arith

module _ (z n d : ℕ) (m : Magnitude z n) (h : d ≤ 31) where
  pub Magnitude-le : (d ≤ n) ↔ (z < 2 ^ (32 - d))
  Magnitude-le = (
    λ le.
        omega
          (arith, pow-le-pow_right {n = 2} (omega arith) {i = 32 - n} {j = 32 - d} (omega arith)),
    λ lt. elim (dec_lt n d) [
      | yes more ↦ absurd (
          omega
            (arith, pow-le-pow_right {n = 2} (omega arith) {i = 32 - d} {j = 31 - n} (omega arith)))
      | no fits ↦ omega arith
    ],
  )

-- A number vanishes under a shift exactly when it is below the place.
shift-eq-zero : (z k : ℕ) → (z / 2 ^ k ≡ 0) ↔ (z < 2 ^ k)
shift-eq-zero z k = (λ e. grind (arith, one-le-pow), λ lt. grind arith)

-- Equal leading bits are a small difference.
pub shift-eq : (a b k : ℕ) → (a / 2 ^ k ≡ b / 2 ^ k) ↔ (bit_xor a b < 2 ^ k)
shift-eq a b k =
    let zero_shift = shift-eq-zero (bit_xor a b) k in
    let zero_xor = bit_xor-eq-zero (a / 2 ^ k) (b / 2 ^ k) in
    (
      λ e. zero_shift.0 (bit_xor-shift k a b ∙ zero_xor.1 e),
      λ lt. zero_xor.0 (sym (bit_xor-shift k a b) ∙ zero_shift.1 lt),
    )

pub bit_xor-IsByte : (x y : ℕ) → IsByte x → IsByte y → IsByte (bit_xor x y)
bit_xor-IsByte x y p q = (shift-eq x y 8).0 (omega arith)

pub bit_xor-join4 :
    (x₀ x₁ x₂ x₃ y₀ y₁ y₂ y₃ : ℕ)
    → IsByte x₁ × IsByte x₂ × IsByte x₃ × IsByte y₁ × IsByte y₂ × IsByte y₃
    → bit_xor (join4 x₀ x₁ x₂ x₃) (join4 y₀ y₁ y₂ y₃)
      ≡ join4 (bit_xor x₀ y₀) (bit_xor x₁ y₁) (bit_xor x₂ y₂) (bit_xor x₃ y₃)
bit_xor-join4 x₀ x₁ x₂ x₃ y₀ y₁ y₂ y₃ (p₁, p₂, p₃, q₁, q₂, q₃) = omega (
  arith,
  bit_xor-join 8 ((x₀ * 256 + x₁) * 256 + x₂) ((y₀ * 256 + y₁) * 256 + y₂) x₃ y₃ p₃ q₃,
  bit_xor-join 8 (x₀ * 256 + x₁) (y₀ * 256 + y₁) x₂ y₂ p₂ q₂,
  bit_xor-join 8 x₀ y₀ x₁ y₁ p₁ q₁,
)

-- Past the fourth byte the order is capped.
proximity_from-capped : (i : ℕ) (a b : SwarmAddress) → 4 ≤ i → proximity_from i a b ≡ max_po
unfolding proximity_from
proximity_from-capped i [] b h = refl
proximity_from-capped i (x ∷ a) [] h = refl
proximity_from-capped i (x ∷ a) (y ∷ b) h = ground (arith, proximity_from-capped (i + 1) a b)

module _ (x₀ x₁ x₂ x₃ y₀ y₁ y₂ y₃ : ℕ) (a b : SwarmAddress) where
  -- The order is that of the difference of the first four bytes, or the cap if there is none.
  pub proximity-Magnitude :
      All IsByte (x₀ ∷ x₁ ∷ x₂ ∷ x₃ ∷ [])
      → All IsByte (y₀ ∷ y₁ ∷ y₂ ∷ y₃ ∷ [])
      → let z = join4 (bit_xor x₀ y₀) (bit_xor x₁ y₁) (bit_xor x₂ y₂) (bit_xor x₃ y₃) in
        let n = proximity (x₀ ∷ x₁ ∷ x₂ ∷ x₃ ∷ a) (y₀ ∷ y₁ ∷ y₂ ∷ y₃ ∷ b) in
        ((z ≡ 0) × (n ≡ max_po)) ⊎ Magnitude z n
  unfolding proximity_from proximity
  proximity-Magnitude p q =
      let r₀ = bit_xor-IsByte x₀ y₀ p.0 q.0 in
      let r₁ = bit_xor-IsByte x₁ y₁ p.1.0 q.1.0 in
      let r₂ = bit_xor-IsByte x₂ y₂ p.1.1.0 q.1.1.0 in
      let r₃ = bit_xor-IsByte x₃ y₃ p.1.1.1.0 q.1.1.1.0 in
      ground (
        arith,
        magnitude₀ (bit_xor x₀ y₀) (bit_xor x₁ y₁) (bit_xor x₂ y₂) (bit_xor x₃ y₃) r₀ r₁ r₂ r₃,
        magnitude₁ (bit_xor x₀ y₀) (bit_xor x₁ y₁) (bit_xor x₂ y₂) (bit_xor x₃ y₃) r₀ r₁ r₂ r₃,
        magnitude₂ (bit_xor x₀ y₀) (bit_xor x₁ y₁) (bit_xor x₂ y₂) (bit_xor x₃ y₃) r₀ r₁ r₂ r₃,
        magnitude₃ (bit_xor x₀ y₀) (bit_xor x₁ y₁) (bit_xor x₂ y₂) (bit_xor x₃ y₃) r₀ r₁ r₂ r₃,
        proximity_from-capped 4 a b,
      )
