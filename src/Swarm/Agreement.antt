-- ===== src/Swarm/Agreement.antt =====
-- Proximity order, neighbourhoods and work buckets against each other.
use Prim.Native.Nat.{bit_xor}
use native.Mathlib.Nat.{div-div-eq-div-mul, one-le-pow}
use directswarm.Base.Bits.{pow-add, bit_xor_comm, bit_xor-eq-zero}
use directswarm.Base.{
  ℕ, ◌+◌, ◌-◌, ◌*◌, ◌/◌, ◌^◌, ◌≤◌, ◌<◌, ◌≡◌, refl, ap, ◌↔◌, ◌∙◌, ◌⊎◌, inl, inr, ℕ_discrete, ◌≢◌, [],
  ◌∷◌, arith, length, All, min, take,
}
use directswarm.Swarm.{
  SwarmAddress, IsByte, IsAddress, max_po, be_bytes, proximity, proximity_from, prefix32,
  neighborhood, bucket_prefix,
}
use directswarm.Swarm.Magnitude.{
  join4, Magnitude, Magnitude-le, shift-eq, bit_xor-join4, proximity-Magnitude,
}

-- The first four bytes and the rest.
record Leading (a : SwarmAddress) : Type 0 where
  x₀ : ℕ
  x₁ : ℕ
  x₂ : ℕ
  x₃ : ℕ
  tail : SwarmAddress
  shape : a ≡ x₀ ∷ x₁ ∷ x₂ ∷ x₃ ∷ tail
  small : All IsByte (x₀ ∷ x₁ ∷ x₂ ∷ x₃ ∷ [])
  rest : All IsByte tail

leading : (a : SwarmAddress) → 4 ≤ length a → All IsByte a → Leading a
leading [] h b = absurd (omega arith)
leading (x ∷ []) h b = absurd (omega arith)
leading (x ∷ y ∷ []) h b = absurd (omega arith)
leading (x ∷ y ∷ z ∷ []) h b = absurd (omega arith)
leading (x ∷ y ∷ z ∷ w ∷ a) h b = record {
  x₀ = x;
  x₁ = y;
  x₂ = z;
  x₃ = w;
  tail = a;
  shape = refl;
  small = (b.0, (b.1.0, (b.1.1.0, (b.1.1.1.0, tt))));
  rest = b.1.1.1.1;
}

IsAddress-Leading : {a : SwarmAddress} → IsAddress a → Leading a
IsAddress-Leading {a} p = leading a (omega (arith, p.size)) p.bytes

prefix32-join4 : (a : SwarmAddress) (u : Leading a) → prefix32 a ≡ join4 u.x₀ u.x₁ u.x₂ u.x₃
unfolding prefix32 be_bytes
prefix32-join4 a u = rw u.shape (omega arith)

module _ (a b : SwarmAddress) (u : Leading a) (v : Leading b) where
  prefix32-Magnitude :
      let z = bit_xor (prefix32 a) (prefix32 b) in
      ((z ≡ 0) × (proximity a b ≡ max_po)) ⊎ Magnitude z (proximity a b)
  prefix32-Magnitude =
      rw
        (
          prefix32-join4 a u,
          prefix32-join4 b v,
          bit_xor-join4 u.x₀ u.x₁ u.x₂ u.x₃ v.x₀ v.x₁ v.x₂ v.x₃ (
            u.small.1.0, u.small.1.1.0, u.small.1.1.1.0, v.small.1.0, v.small.1.1.0,
            v.small.1.1.1.0,
          ),
        )
        (rw (u.shape, v.shape)
          (proximity-Magnitude u.x₀ u.x₁ u.x₂ u.x₃ v.x₀ v.x₁ v.x₂ v.x₃ u.tail v.tail u.small
            v.small))

  proximity-prefix32 :
      (d : ℕ)
      → d ≤ 31
      → (d ≤ proximity a b) ↔ (prefix32 a / 2 ^ (32 - d) ≡ prefix32 b / 2 ^ (32 - d))
  proximity-prefix32 d h = elim prefix32-Magnitude [
    | inl (e, n) ↦ (
      λ _. (shift-eq (prefix32 a) (prefix32 b) (32 - d)).1 (grind (arith, one-le-pow)),
      λ _. omega arith,
    )
    | inr m ↦
        let size = Magnitude-le (bit_xor (prefix32 a) (prefix32 b)) (proximity a b) d m h in
        let same = shift-eq (prefix32 a) (prefix32 b) (32 - d) in
        (λ le. same.1 (size.0 le), λ e. size.1 (same.0 e))
  ]

-- Two addresses have at least `d` leading bits in common, as `proximity` counts them, exactly when
-- they lie in one neighbourhood at depth `d`, for every depth up to the cap of 31.
pub proximity-neighborhood :
    (a b : SwarmAddress) (d : ℕ)
    → IsAddress a
    → IsAddress b
    → d ≤ 31
    → (d ≤ proximity a b) ↔ (neighborhood a d ≡ neighborhood b d)
unfolding neighborhood
proximity-neighborhood a b d p q h =
    let same = proximity-prefix32 a b (IsAddress-Leading p) (IsAddress-Leading q) d h in
    (λ le. ground (arith, same.0 le), λ e. ground (arith, same.1))

-- The eight bytes of a bucket key begin with the four of a neighbourhood.
take_eight :
    (a : SwarmAddress)
    → IsAddress a
    → (low : ℕ) × (low < 2 ^ 32) × (be_bytes 0 (take 8 a) ≡ prefix32 a * 2 ^ 32 + low)
unfolding prefix32 be_bytes
take_eight a p =
    let u = IsAddress-Leading p in
    let v = leading u.tail (omega (arith, p.size, ap length u.shape)) u.rest in
    (
      join4 v.x₀ v.x₁ v.x₂ v.x₃,
      omega (arith, v.small.0, v.small.1.0, v.small.1.1.0, v.small.1.1.1.0),
      rw u.shape (rw v.shape (omega arith)),
    )

bucket_prefix-prefix32 :
    (a : SwarmAddress) (d : ℕ)
    → IsAddress a
    → d ≤ 31
    → d ≢ 0
    → bucket_prefix a d ≡ prefix32 a / 2 ^ (32 - d)
unfolding bucket_prefix
bucket_prefix-prefix32 a d p h pos =
    let (low, small, e) = take_eight a p in
    let exponent : 64 - min d 63 ≡ 32 + (32 - d) = omega arith in
    let places : 2 ^ (64 - min d 63) ≡ 2 ^ 32 * 2 ^ (32 - d) =
      ap (λ k. 2 ^ k) exponent ∙ pow-add 32 (32 - d) in
    let head : (prefix32 a * 2 ^ 32 + low) / 2 ^ 32 ≡ prefix32 a = omega arith in
    let cut : be_bytes 0 (take 8 a) / 2 ^ (64 - min d 63) ≡ prefix32 a / 2 ^ (32 - d) =
      rw (
        e,
        places,
        ← div-div-eq-div-mul (prefix32 a * 2 ^ 32 + low) (2 ^ 32) (2 ^ (32 - d)),
        head,
      ) in
    ground arith

-- Two addresses have at least `d` leading bits in common exactly when they fall into one work
-- bucket, for every depth up to the cap of 31.
pub proximity-bucket_prefix :
    (a b : SwarmAddress) (d : ℕ)
    → IsAddress a
    → IsAddress b
    → d ≤ 31
    → (d ≤ proximity a b) ↔ (bucket_prefix a d ≡ bucket_prefix b d)
proximity-bucket_prefix a b d p q h = elim (ℕ_discrete d 0) [
  | yes e ↦ (λ _. rw e (unfold bucket_prefix in refl), λ _. omega arith)
  | no n ↦
      rw (bucket_prefix-prefix32 a d p h n, bucket_prefix-prefix32 b d q h n)
        (proximity-prefix32 a b (IsAddress-Leading p) (IsAddress-Leading q) d h)
]

proximity_from-le : (i : ℕ) (a b : SwarmAddress) → proximity_from i a b ≤ max_po
unfolding proximity_from
proximity_from-le i [] b = omega arith
proximity_from-le i (x ∷ a) [] = omega arith
proximity_from-le i (x ∷ a) (y ∷ b) = ground (arith, proximity_from-le (i + 1) a b)

proximity_from_comm : (i : ℕ) (a b : SwarmAddress) → proximity_from i a b ≡ proximity_from i b a
unfolding proximity_from
proximity_from_comm i [] [] = refl
proximity_from_comm i [] (y ∷ b) = refl
proximity_from_comm i (x ∷ a) [] = refl
proximity_from_comm i (x ∷ a) (y ∷ b) = rw (bit_xor_comm x y, proximity_from_comm (i + 1) a b)

proximity_from_self : (i : ℕ) (a : SwarmAddress) → proximity_from i a a ≡ max_po
unfolding proximity_from
proximity_from_self i [] = refl
proximity_from_self i (x ∷ a) = rw ((bit_xor-eq-zero x x).1 refl) (proximity_from_self (i + 1) a)

pub proximity-le : (a b : SwarmAddress) → proximity a b ≤ max_po
unfolding proximity
proximity-le a b = proximity_from-le 0 a b

-- The order is at most 31, does not depend on the order of its arguments, is 31 for an address and
-- itself, and obeys the ultrametric inequality: of three addresses, the first and the last are
-- at least as close as the farther of the two pairs with the middle one.
pub proximity_laws :
    (a b c : SwarmAddress)
    → IsAddress a
    → IsAddress b
    → IsAddress c
    → (proximity a b ≤ max_po)
      × (proximity a b ≡ proximity b a)
      × (proximity a a ≡ max_po)
      × (min (proximity a b) (proximity b c) ≤ proximity a c)
unfolding proximity
proximity_laws a b c p q r =
    let d = min (proximity a b) (proximity b c) in
    let cap : d ≤ 31 = omega (arith, proximity_from-le 0 a b) in
    let near = (proximity-neighborhood a b d p q cap).0 (omega arith) in
    let far = (proximity-neighborhood b c d q r cap).0 (omega arith) in
    (
      proximity_from-le 0 a b,
      proximity_from_comm 0 a b,
      proximity_from_self 0 a,
      (proximity-neighborhood a c d p r cap).1 (near ∙ far),
    )
