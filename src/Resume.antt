-- ===== src/Resume.antt =====
-- rust/ds-core/src/resume.rs: the sidecar with the verified progress of a fetch. A text is the list
-- of its bytes.
pub mod RoundTrip
pub mod Torn
pub mod PlainHex
mod Tests
use directswarm.Base.{
  ℕ, zero, suc, ◌+◌, ◌-◌, ◌*◌, ◌/◌, ◌%◌, ◌≤◌, Bool, true, false, List, [], ◌∷◌, ◌++◌, Option, none,
  some, ltb, ◌==◌, ◌&&◌, ◌||◌, not, if◌then◌else◌, ◌>>=◌, length, any, bytes_beq, codes, u64_max,
}
use directswarm.Base.Decimal.{decimal, parse_uint}
use directswarm.Base.Split.{lines, strip_prefix}
use directswarm.Swarm.{SwarmAddress}

abbrev pub magic : List ℕ
magic = codes "directswarm-resume v1"

abbrev pub root_label : List ℕ
root_label = codes "root="

abbrev pub offset_label : List ℕ
offset_label = codes "offset="

pub record ResumeState : Type 0 where
  pub root : SwarmAddress
  pub offset : ℕ

-- `char::from_digit(_, 16)`.
unfoldable pub hex_digit : ℕ → ℕ
hex_digit nibble = if ltb nibble 10 then b'0' + nibble else b'a' + (nibble - 10)

-- The two digits of every byte.
unfoldable pub hex_of : List ℕ → List ℕ
hex_of [] = []
hex_of (b ∷ bytes) = hex_digit (b / 16) ∷ hex_digit (b % 16) ∷ hex_of bytes

-- `char::to_digit(16)`.
unfoldable pub to_digit : ℕ → Option ℕ
to_digit c =
    if not (ltb c b'0') && not (ltb b'9' c)
    then some (c - b'0')
    else if not (ltb c b'a') && not (ltb b'f' c)
    then some (c - b'a' + 10)
    else if not (ltb c b'A') && not (ltb b'F' c)
    then some (c - b'A' + 10)
    else none

-- The loop over the pairs of digits.
unfoldable pub hex_pairs : List ℕ → Option (List ℕ)
hex_pairs [] = some []
hex_pairs (a ∷ []) = none
hex_pairs (a ∷ b ∷ rest) = do
  hi ← to_digit a
  lo ← to_digit b
  bytes ← hex_pairs rest
  some ((hi * 16 + lo) ∷ bytes)

unfoldable pub parse_hex32 : List ℕ → Option (List ℕ)
unfolding hex_pairs
parse_hex32 s = if not (length s == 64) || any (λ c. not (ltb c 128)) s then none else hex_pairs s

unfoldable pub render : ResumeState → List ℕ
render s =
    magic
    ++ b'\n'
      ∷ ((root_label ++ hex_of s.root)
          ++ b'\n' ∷ ((offset_label ++ decimal 20 s.offset) ++ b'\n' ∷ []))

-- `lines.next()?`.
abbrev pub next_line : List (List ℕ) → Option (List ℕ × List (List ℕ))
next_line [] = none
next_line (line ∷ rest) = some (line, rest)

unfoldable pub parse_lines : List (List ℕ) → Option ResumeState
parse_lines text = do
  (first, after_magic) ← next_line text
  if not (bytes_beq first magic) then none else do
    (second, after_root) ← next_line after_magic
    root_hex ← strip_prefix root_label second
    root ← parse_hex32 root_hex
    (third, rest) ← next_line after_root
    number ← strip_prefix offset_label third
    offset ← parse_uint u64_max number
    some (record { root = root; offset = offset })

unfoldable pub parse : List ℕ → Option ResumeState
unfolding parse_lines
parse text = parse_lines (lines text)
