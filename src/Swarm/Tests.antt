-- ===== src/Swarm/Tests.antt =====
-- Runs of the address arithmetic on the inputs of the source's tests, and instances of its
-- theorems.
use directswarm.Base.{◌≤◌, ◌≡◌, refl, ◌↔◌, [], ◌∷◌, some, arith}
use directswarm.Swarm.{
  SwarmAddress, IsAddress, leading_zeros, proximity, neighborhood, bucket_prefix, padded,
}
use directswarm.Swarm.Agreement.{proximity-neighborhood}

proximity_first_bit : proximity (padded (0x00 ∷ [])) (padded (0x80 ∷ [])) ≡ 0
unfolding proximity leading_zeros
proximity_first_bit = refl

proximity_second_byte : proximity (padded (0xff ∷ 0x00 ∷ [])) (padded (0xff ∷ 0x80 ∷ [])) ≡ 8
unfolding proximity leading_zeros
proximity_second_byte = refl

neighborhood_depth9 : neighborhood (padded (0xff ∷ 0x80 ∷ [])) 9 ≡ some 511
unfolding neighborhood
neighborhood_depth9 = refl

bucket_depth9 : bucket_prefix (padded (0xff ∷ 0x80 ∷ [])) 9 ≡ 511
unfolding bucket_prefix
bucket_depth9 = refl

abbrev left : SwarmAddress
left = padded (0xaa ∷ 0xc0 ∷ [])

abbrev right : SwarmAddress
right = padded (0xaa ∷ 0xcf ∷ [])

left-IsAddress : IsAddress left
left-IsAddress = record { size = refl; bytes = omega arith }

right-IsAddress : IsAddress right
right-IsAddress = record { size = refl; bytes = omega arith }

proximity-neighborhood_example :
    (12 ≤ proximity left right) ↔ (neighborhood left 12 ≡ neighborhood right 12)
proximity-neighborhood_example =
    proximity-neighborhood left right 12 left-IsAddress right-IsAddress (omega arith)
