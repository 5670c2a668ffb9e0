-- ===== src/Swarm.antt =====
-- rust/ds-core/src/swarm.rs, and `bucket_prefix` of rust/ds-net/src/schedule.rs: proximity order,
-- neighbourhoods and work buckets. An address is the list of its bytes.
mod Magnitude
pub mod Agreement
mod Tests
use Prim.Native.Nat.{bit_xor}
use directswarm.Base.{
  ℕ, ◌+◌, ◌-◌, ◌*◌, ◌/◌, ◌^◌, ◌<◌, ◌≡◌, refl, Bool, true, false, List, [], ◌∷◌, Option, none, some,
  min, ltb, ◌==◌, if◌then◌else◌, length, get_or, take, replicate, ◌++◌, All,
}

-- `type SwarmAddress = [u8; 32]`.
abbrev pub SwarmAddress : Type 0
SwarmAddress = List ℕ

abbrev pub IsByte : ℕ → Type 0
IsByte b = b < 256

pub record IsAddress (a : SwarmAddress) : Type 0 where
  pub size : length a ≡ 32
  pub bytes : All IsByte a

abbrev pub max_po : ℕ
max_po = 31

-- `u8::leading_zeros`.
unfoldable pub leading_zeros : ℕ → ℕ
leading_zeros x =
    if ltb x 1
    then 8
    else if ltb x 2
    then 7
    else if ltb x 4
    then 6
    else if ltb x 8
    then 5
    else if ltb x 16
    then 4
    else if ltb x 32
    then 3
    else if ltb x 64
    then 2
    else if ltb x 128
    then 1
    else 0

-- The loop of `proximity` from byte `i` on. `u8::try_from` cannot fail below `max_po`.
unfoldable pub proximity_from : ℕ → SwarmAddress → SwarmAddress → ℕ
proximity_from i [] b = max_po
proximity_from i (x ∷ a) [] = max_po
proximity_from i (x ∷ a) (y ∷ b) =
    let rest = proximity_from (i + 1) a b in
    let diff = bit_xor x y in if diff == 0 then rest else min (i * 8 + leading_zeros diff) max_po

unfoldable pub proximity : SwarmAddress → SwarmAddress → ℕ
unfolding proximity_from
proximity a b = proximity_from 0 a b

-- `u32::from_be_bytes` and `u64::from_be_bytes` of the leading bytes.
unfoldable pub be_bytes : ℕ → SwarmAddress → ℕ
be_bytes acc [] = acc
be_bytes acc (x ∷ a) = be_bytes (acc * 256 + x) a

-- The first four bytes as a `u32`.
unfoldable pub prefix32 : SwarmAddress → ℕ
unfolding be_bytes
prefix32 a = be_bytes 0 (get_or a 0 0 ∷ get_or a 1 0 ∷ get_or a 2 0 ∷ get_or a 3 0 ∷ [])

-- The assertion `depth <= 32` panics: `none`.
unfoldable pub neighborhood : SwarmAddress → ℕ → Option ℕ
unfolding prefix32
neighborhood a depth =
    if ltb 32 depth
    then none
    else if depth == 0
    then some 0
    else some (prefix32 a / 2 ^ (32 - depth))

unfoldable pub bucket_prefix : SwarmAddress → ℕ → ℕ
unfolding be_bytes
bucket_prefix a depth =
    let v = be_bytes 0 (take 8 a) in if depth == 0 then 0 else v / 2 ^ (64 - min depth 63)

-- `addr(&first_bytes)` of the tests: the rest is zero.
abbrev pub padded : List ℕ → SwarmAddress
padded first = first ++ replicate (32 - length first) 0
