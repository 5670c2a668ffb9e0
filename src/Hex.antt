-- ===== src/Hex.antt =====
-- The `hex` crate as its callers in rust/ds-net rely on it: `encode` of an address, and
-- `decode_to_slice` into 32 bytes, which reads back what `encode` prints.
use directswarm.Base.{ℕ, ◌≤◌, ◌≡◌, List, Option, some, All}
use directswarm.Swarm.{SwarmAddress, IsAddress}

-- The characters of a print.
abbrev pub IsHex : ℕ → Type 0
IsHex c = (b'0' ≤ c) × (c ≤ b'f')

pub record HexCrate : Type 0 where
  pub encode : SwarmAddress → List ℕ
  pub decode : List ℕ → Option SwarmAddress
  pub decode-encode : (a : SwarmAddress) → IsAddress a → decode (encode a) ≡ some a
  pub encode-IsHex : (a : SwarmAddress) → IsAddress a → All IsHex (encode a)
