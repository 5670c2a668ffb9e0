-- ===== src/Ledger/File.antt =====
-- The file of rust/ds-net/src/ledger.rs: a JSON object of decimal texts under hexadecimal keys, written by
-- `persist_map` and read leniently by `load_map`. The texts of a `U256` are another package's.
pub mod RoundTrip
mod Tests
use directswarm.Base.{
  ℕ, ◌+◌, ◌≤◌, ◌≡◌, Bool, true, false, ◌&&◌, ◌||◌, List, [], ◌∷◌, ◌++◌, map, Option, none, some,
  ltb, ◌==◌, if◌then◌else◌, length, any, not, All, insert, bytes_eq, codes, u256_max,
}
use directswarm.Base.Decimal.{IsDigit}
use directswarm.Base.Split.{split_on}

-- `Display` and `from_dec_str` of a `U256`.
pub record U256Text : Type 0 where
  pub show : ℕ → List ℕ
  pub read : List ℕ → Option ℕ
  pub read-show : (n : ℕ) → n ≤ u256_max → read (show n) ≡ some n
  pub show-IsDigit : (n : ℕ) → All IsDigit (show n)

abbrev pub Entries : Type 0
Entries = List (List ℕ × ℕ)

-- The entries behind what separates them from the text before.
abbrev pub rows : U256Text → List ℕ → Entries → List ℕ
rows u lead [] = codes "\n}"
rows u lead ((k, v) ∷ entries) =
    lead
    ++ (codes "  \""
        ++ (k ++ (codes "\": \"" ++ (u.show v ++ (codes "\"" ++ rows u (codes ",\n") entries)))))

unfoldable pub persist_map : U256Text → Entries → List ℕ
persist_map u entries = codes "{\n" ++ rows u [] entries

abbrev pub is_hexdigit : ℕ → Bool
is_hexdigit c =
    (not (ltb c b'0') && not (ltb b'9' c))
    || (not (ltb c b'a') && not (ltb b'f' c))
    || (not (ltb c b'A') && not (ltb b'F' c))

abbrev pub to_lowercase : ℕ → ℕ
to_lowercase c = if not (ltb c b'A') && not (ltb b'Z' c) then c + 32 else c

abbrev pub is_key : List ℕ → Bool
is_key key = (length key == 40) && not (any (λ c. not (is_hexdigit c)) key)

-- `str::trim` on single-byte white space.
abbrev pub is_space : ℕ → Bool
is_space c = (c == 32) || (not (ltb c 9) && not (ltb 13 c))

unfoldable pub trim_start : List ℕ → List ℕ
trim_start [] = []
trim_start (c ∷ cs) = let rest = trim_start cs in if is_space c then rest else c ∷ cs

unfoldable pub trim_end : List ℕ → List ℕ
trim_end [] = []
trim_end (c ∷ cs) = elim (trim_end cs) [
  | [] ↦ if is_space c then [] else c ∷ []
  | d ∷ ds ↦ c ∷ d ∷ ds
]

abbrev pub add_value : List ℕ → Option ℕ → Entries → Entries
add_value key none m = m
add_value key (some v) m = insert (map to_lowercase key) v m

unfoldable pub add_part : U256Text → List ℕ → List ℕ → Entries → Entries
add_part u key value m =
    if is_key key then add_value key (u.read (trim_end (trim_start value))) m else m

-- Four parts at a time, as long as there are four.
unfoldable pub load_parts : U256Text → List (List ℕ) → Entries → Entries
load_parts u [] m = m
load_parts u (a ∷ []) m = m
load_parts u (a ∷ key ∷ []) m = m
load_parts u (a ∷ key ∷ b ∷ []) m = m
load_parts u (a ∷ key ∷ b ∷ value ∷ rest) m = load_parts u rest (add_part u key value m)

unfoldable pub load_map : U256Text → Option (List ℕ) → Entries
load_map u none = []
load_map u (some text) = load_parts u (split_on b'"' text) []
