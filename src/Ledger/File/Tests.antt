-- ===== src/Ledger/File/Tests.antt =====
-- A ledger of one beneficiary written and read.
use directswarm.Base.{
  ℕ, zero, suc, ◌≡◌, refl, [], ◌∷◌, some, All, arith, replicate, lookup, bytes_eq, u256_max,
}
use directswarm.Base.Decimal.{decimal, parse_uint, parse_uint-decimal, decimal-IsDigit}
use directswarm.Ledger.File.{U256Text, Entries, persist_map, load_map}
use directswarm.Ledger.File.RoundTrip.{IsLowerHex, load_map-persist_map}

abbrev plain : U256Text
plain = record {
  show = decimal 78;
  read = parse_uint u256_max;
  read-show = λ n h. parse_uint-decimal u256_max 77 n (omega arith) h;
  show-IsDigit = decimal-IsDigit 78;
}

abbrev one_entry : Entries
one_entry = (replicate 40 b'a', 5_129) ∷ []

all_lower : (n : ℕ) → All IsLowerHex (replicate n b'a')
all_lower zero = tt
all_lower (suc n) = (ground arith, all_lower n)

load_map-persist_map_example :
    lookup (replicate 40 b'a') (load_map plain (some (persist_map plain one_entry)))
    ≡ lookup (replicate 40 b'a') one_entry
unfolding lookup
load_map-persist_map_example =
    load_map-persist_map plain one_entry (replicate 40 b'a') ((refl, all_lower 40, omega arith), tt)
      (refl, tt)
