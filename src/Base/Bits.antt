-- ===== src/Base/Bits.antt =====
-- Laws of the bit operations at variables: the step to the next digit, and what follows from it.
use Prim.Native.Nat.{
  ℕ, zero, suc, ◌+◌, ◌*◌, ◌/◌, ◌%◌, ◌^◌, ◌≤◌, ◌<◌, max, bit_or, bit_xor, digits, bit_or-bitwise,
  bit_xor-bitwise, differ,
}
use mathlib.Core.Logic.{◌↔◌}
use mathlib.Core.Path.{◌≡◌, refl, ap, ap₂, ◌∙◌, sym}
use native.Mathlib.Nat.{div-div-eq-div-mul, div-one, add-zero, add-suc, pow-suc, pow-succ'}
use native.Mathlib.Omega.{arith}

pub pow-add : (m n : ℕ) → 2 ^ (m + n) ≡ 2 ^ m * 2 ^ n
pow-add m zero = rw (add-zero m) (omega arith)
pow-add m (suc n) =
    rw (add-suc m n)
      (omega (arith, pow-suc 2 (m + n), pow-add m n, ap (λ t. 2 ^ m * t) (pow-suc 2 n)))

-- Both operations keep the second number once the first has run out.
module _ (f : ℕ → ℕ → ℕ) (unit : (y : ℕ) → f 0 y ≡ y) where
  abbrev combine : ℕ → ℕ → ℕ → ℕ
  combine = digits (λ b. b) f

  combine_fuel : (n m a b : ℕ) → a ≤ n → a ≤ m → combine n a b ≡ combine m a b
  combine_fuel zero zero a b p q = refl
  combine_fuel zero (suc m) zero b p q = refl
  combine_fuel zero (suc m) (suc a) b p q = absurd (omega arith)
  combine_fuel (suc n) zero zero b p q = refl
  combine_fuel (suc n) zero (suc a) b p q = absurd (omega arith)
  combine_fuel (suc n) (suc m) zero b p q = refl
  combine_fuel (suc n) (suc m) (suc a) b p q =
      omega (arith, combine_fuel n m (suc a / 2) (b / 2) (omega arith) (omega arith))

  combine_step : (a b : ℕ) → combine a a b ≡ combine (a / 2) (a / 2) (b / 2) * 2 + f (a % 2) (b % 2)
  combine_step zero b = omega (arith, unit (b % 2))
  combine_step (suc a) b =
      omega (arith, combine_fuel a (suc a / 2) (suc a / 2) (b / 2) (omega arith) (omega arith))

differ-le : (x y : ℕ) → x < 2 → y < 2 → differ x y < 2
differ-le zero y h k = k
differ-le (suc zero) zero h k = omega arith
differ-le (suc zero) (suc y) h k = omega arith
differ-le (suc (suc x)) y h k = absurd (omega arith)

differ-eq-zero : (x y : ℕ) → x < 2 → y < 2 → (differ x y ≡ 0) ↔ (x ≡ y)
differ-eq-zero zero y h k = (λ e. omega arith, λ e. omega arith)
differ-eq-zero (suc zero) zero h k = (λ e. absurd (omega arith), λ e. absurd (omega arith))
differ-eq-zero (suc zero) (suc zero) h k = (λ e. refl, λ e. refl)
differ-eq-zero (suc zero) (suc (suc y)) h k = absurd (omega arith)
differ-eq-zero (suc (suc x)) y h k = absurd (omega arith)

bit_xor_step : (a b : ℕ) → bit_xor a b ≡ bit_xor (a / 2) (b / 2) * 2 + differ (a % 2) (b % 2)
bit_xor_step a b = omega (
  arith,
  combine_step differ (λ y. refl) a b,
  bit_xor-bitwise a b,
  bit_xor-bitwise (a / 2) (b / 2),
)

bit_xor-half : (a b : ℕ) → bit_xor a b / 2 ≡ bit_xor (a / 2) (b / 2)
bit_xor-half a b = omega (arith, bit_xor_step a b, differ-le (a % 2) (b % 2))

-- One more place to the right.
pub shift_suc : (k a : ℕ) → a / 2 ^ suc k ≡ a / 2 / 2 ^ k
shift_suc k a = ap (λ d. a / d) (pow-succ' 2 k) ∙ sym (div-div-eq-div-mul a 2 (2 ^ k))

-- Exclusive or commutes with a shift to the right.
pub bit_xor-shift : (k a b : ℕ) → bit_xor a b / 2 ^ k ≡ bit_xor (a / 2 ^ k) (b / 2 ^ k)
bit_xor-shift zero a b = rw (div-one (bit_xor a b), div-one a, div-one b)
bit_xor-shift (suc k) a b =
    rw (shift_suc k (bit_xor a b), shift_suc k a, shift_suc k b, bit_xor-half a b)
      (bit_xor-shift k (a / 2) (b / 2))

bit_xor-eq-zero_fuel : (n a b : ℕ) → a ≤ n → b ≤ n → (bit_xor a b ≡ 0) ↔ (a ≡ b)
bit_xor-eq-zero_fuel zero zero zero p q = (λ e. refl, λ e. refl)
bit_xor-eq-zero_fuel zero zero (suc b) p q = absurd (omega arith)
bit_xor-eq-zero_fuel zero (suc a) b p q = absurd (omega arith)
bit_xor-eq-zero_fuel (suc n) a b p q =
    let half = bit_xor-eq-zero_fuel n (a / 2) (b / 2) (omega arith) (omega arith) in
    let low = differ-eq-zero (a % 2) (b % 2) (omega arith) (omega arith) in
    (
      λ e.
          let split : (bit_xor (a / 2) (b / 2) ≡ 0) × (differ (a % 2) (b % 2) ≡ 0) =
            omega (arith, bit_xor_step a b) in
          omega (arith, half.0 split.0, low.0 split.1),
      λ e. omega (arith, bit_xor_step a b, half.1 (omega arith), low.1 (omega arith)),
    )

-- It is zero exactly on equal numbers.
pub bit_xor-eq-zero : (a b : ℕ) → (bit_xor a b ≡ 0) ↔ (a ≡ b)
bit_xor-eq-zero a b = bit_xor-eq-zero_fuel (a + b) a b (omega arith) (omega arith)

differ_comm : (x y : ℕ) → differ x y ≡ differ y x
differ_comm zero zero = refl
differ_comm zero (suc y) = refl
differ_comm (suc x) zero = refl
differ_comm (suc x) (suc y) = differ_comm x y

bit_xor_comm_fuel : (n a b : ℕ) → a ≤ n → b ≤ n → bit_xor a b ≡ bit_xor b a
bit_xor_comm_fuel zero zero zero p q = refl
bit_xor_comm_fuel zero zero (suc b) p q = absurd (omega arith)
bit_xor_comm_fuel zero (suc a) b p q = absurd (omega arith)
bit_xor_comm_fuel (suc n) a b p q = omega (
  arith,
  bit_xor_step a b,
  bit_xor_step b a,
  differ_comm (a % 2) (b % 2),
  bit_xor_comm_fuel n (a / 2) (b / 2) (omega arith) (omega arith),
)

pub bit_xor_comm : (a b : ℕ) → bit_xor a b ≡ bit_xor b a
bit_xor_comm a b = bit_xor_comm_fuel (a + b) a b (omega arith) (omega arith)

-- Two numbers that are cut at the same place are combined part by part.
pub bit_xor-join :
    (k h h' l l' : ℕ)
    → l < 2 ^ k
    → l' < 2 ^ k
    → bit_xor (h * 2 ^ k + l) (h' * 2 ^ k + l') ≡ bit_xor h h' * 2 ^ k + bit_xor l l'
bit_xor-join zero h h' zero zero p q =
    let one : (n : ℕ) → n * 2 ^ 0 + 0 ≡ n = λ n. omega arith in
    rw (one h, one h') (omega (arith, bit_xor-bitwise 0 0))
bit_xor-join zero h h' zero (suc l') p q = absurd (omega arith)
bit_xor-join zero h h' (suc l) l' p q = absurd (omega arith)
bit_xor-join (suc k) h h' l l' p q =
    let double = λ (n : ℕ). ap (λ t. n * t) (pow-suc 2 k) in
    let half : (h * 2 ^ suc k + l) / 2 ≡ h * 2 ^ k + l / 2 = omega (arith, double h) in
    let half' : (h' * 2 ^ suc k + l') / 2 ≡ h' * 2 ^ k + l' / 2 = omega (arith, double h') in
    let low : (h * 2 ^ suc k + l) % 2 ≡ l % 2 = omega (arith, double h) in
    let low' : (h' * 2 ^ suc k + l') % 2 ≡ l' % 2 = omega (arith, double h') in
    omega (
      arith,
      bit_xor_step (h * 2 ^ suc k + l) (h' * 2 ^ suc k + l'),
      ap₂ bit_xor half half',
      ap₂ differ low low',
      bit_xor_step l l',
      double (bit_xor h h'),
      bit_xor-join k h h' (l / 2) (l' / 2) (omega (arith, pow-suc 2 k))
          (omega (arith, pow-suc 2 k)),
    )

bit_or_step : (a b : ℕ) → bit_or a b ≡ bit_or (a / 2) (b / 2) * 2 + max (a % 2) (b % 2)
bit_or_step a b = omega (
  arith,
  combine_step max (λ y. omega arith) a b,
  bit_or-bitwise a b,
  bit_or-bitwise (a / 2) (b / 2),
)

-- Disjoint bits are added.
pub bit_or-disjoint : (k a b : ℕ) → a < 2 ^ k → bit_or a (b * 2 ^ k) ≡ a + b * 2 ^ k
bit_or-disjoint zero zero b h = omega (arith, bit_or-bitwise 0 (b * 2 ^ 0))
bit_or-disjoint zero (suc a) b h = absurd (omega arith)
bit_or-disjoint (suc k) a b h =
    let double : b * 2 ^ suc k ≡ b * 2 ^ k * 2 = omega (arith, ap (λ p. b * p) (pow-suc 2 k)) in
    let halved : b * 2 ^ suc k / 2 ≡ b * 2 ^ k = omega arith in
    let small : a / 2 < 2 ^ k = omega (arith, pow-suc 2 k) in
    omega (
      arith,
      bit_or_step a (b * 2 ^ suc k),
      ap (bit_or (a / 2)) halved,
      bit_or-disjoint k (a / 2) b small,
    )
