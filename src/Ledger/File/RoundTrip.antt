-- ===== src/Ledger/File/RoundTrip.antt =====
-- `load_map` on what `persist_map` writes.
use directswarm.Base.{
  ℕ, ◌≤◌, ◌≡◌, ◌≢◌, ◌⊎◌, refl, ap, sym, ◌∙◌, true, false, List, [], ◌∷◌, ◌++◌, append_assoc, map,
  some, ◌==◌, ==_iff, if◌then◌else◌, length, any, not, arith, All, All-append, lookup, insert,
  insert_all, Distinct, lookup-load, bytes_eq, codes, u256_max,
}
use directswarm.Base.Decimal.{IsDigit}
use directswarm.Base.Split.{split_on, Lacks, Lacks-of, split_on-append, split_on-last}
use directswarm.Ledger.File.{
  U256Text, Entries, rows, persist_map, is_hexdigit, to_lowercase, is_space, trim_start, trim_end,
  add_part, load_parts, load_map,
}

-- A digit as the keys have it.
abbrev pub IsLowerHex : ℕ → Type 0
IsLowerHex c = ((b'0' ≤ c) × (c ≤ b'9')) ⊎ ((b'a' ≤ c) × (c ≤ b'f'))

abbrev pub IsLedgerEntry : List ℕ × ℕ → Type 0
IsLedgerEntry (k, v) = (length k ≡ 40) × All IsLowerHex k × (v ≤ u256_max)

key_digits : (k : List ℕ) → All IsLowerHex k → any (λ c. not (is_hexdigit c)) k ≡ false
key_digits [] h = refl
key_digits (c ∷ k) (hc, h) = ground (arith, key_digits k h)

lower_same : (k : List ℕ) → All IsLowerHex k → map to_lowercase k ≡ k
lower_same [] h = refl
lower_same (c ∷ k) (hc, h) =
    let e : to_lowercase c ≡ c = ground arith in
    ap (λ d. d ∷ map to_lowercase k) e ∙ ap (◌∷◌ c) (lower_same k h)

digit_shown : (c : ℕ) → IsDigit c → is_space c ≡ false
digit_shown c h = ground arith

trim_start-digits : (w : List ℕ) → All IsDigit w → trim_start w ≡ w
unfolding trim_start
trim_start-digits [] h = refl
trim_start-digits (c ∷ w) (hc, h) = rw (digit_shown c hc) refl

trim_end-digits : (w : List ℕ) → All IsDigit w → trim_end w ≡ w
unfolding trim_end
trim_end-digits [] h = refl
trim_end-digits (c ∷ []) (hc, h) = rw (digit_shown c hc) refl
trim_end-digits (c ∷ d ∷ w) (hc, h) =
    ap (λ t. elim t [ [] ↦ if is_space c then [] else c ∷ [] | e ∷ es ↦ c ∷ e ∷ es ])
      (trim_end-digits (d ∷ w) h)

module _ (u : U256Text) where
  add_part-entry :
      (k : List ℕ) (v : ℕ) (m : Entries)
      → IsLedgerEntry (k, v)
      → add_part u k (u.show v) m ≡ insert k v m
  unfolding add_part
  add_part-entry k v m (size, hex, small) =
      let forty : (length k == 40) ≡ true = ground (arith, ==_iff (length k) 40) in
      let trimmed : trim_end (trim_start (u.show v)) ≡ u.show v =
        ap trim_end (trim_start-digits (u.show v) (u.show-IsDigit v))
        ∙ trim_end-digits (u.show v) (u.show-IsDigit v) in
      rw (forty, key_digits k hex, trimmed, u.read-show v small, lower_same k hex) refl

  hex-Lacks : (k : List ℕ) → All IsLowerHex k → Lacks b'"' k
  hex-Lacks k h = Lacks-of IsLowerHex b'"' (λ x d. ground arith) k h

  digits-Lacks : (v : ℕ) → Lacks b'"' (u.show v)
  digits-Lacks v = Lacks-of IsDigit b'"' (λ x d. omega arith) (u.show v) (u.show-IsDigit v)

  -- The four parts of an entry, then those of the rest.
  split-entry :
      (pre k : List ℕ) (v : ℕ) (rest : List ℕ)
      → Lacks b'"' pre
      → All IsLowerHex k
      → split_on b'"'
          (pre ++ (codes "\"" ++ (k ++ (codes "\": \"" ++ (u.show v ++ (codes "\"" ++ rest))))))
        ≡ pre ∷ k ∷ codes ": " ∷ u.show v ∷ split_on b'"' rest
  split-entry pre k v rest hp hk =
      split_on-append b'"' pre _ hp
      ∙ ap (◌∷◌ pre) (
          split_on-append b'"' k _ (hex-Lacks k hk)
          ∙ ap (◌∷◌ k) (
              split_on-append b'"' (codes ": ") _ (omega arith)
              ∙ ap (◌∷◌ (codes ": ")) (split_on-append b'"' (u.show v) rest (digits-Lacks v))))

  load_parts-rows :
      (pre lead : List ℕ) (entries m : Entries)
      → Lacks b'"' pre
      → Lacks b'"' lead
      → All IsLedgerEntry entries
      → load_parts u (split_on b'"' (pre ++ rows u lead entries)) m ≡ insert_all entries m
  unfolding load_parts insert_all
  load_parts-rows pre lead [] m hp hl h =
      ap (λ t. load_parts u t m)
        (split_on-last b'"' (pre ++ codes "\n}")
          (All-append (λ x. x ≢ b'"') pre (codes "\n}") hp (omega arith)))
  load_parts-rows pre lead ((k, v) ∷ entries) m hp hl ((size, hex, small), h) =
      let front = pre ++ (lead ++ codes "  ") in
      let rest = rows u (codes ",\n") entries in
      let body = codes "\"" ++ (k ++ (codes "\": \"" ++ (u.show v ++ (codes "\"" ++ rest)))) in
      let shape : pre ++ rows u lead ((k, v) ∷ entries) ≡ front ++ body =
        ap (λ t. pre ++ t) (sym (append_assoc lead (codes "  ") body))
        ∙ sym (append_assoc pre (lead ++ codes "  ") body) in
      let lacks =
        All-append (λ x. x ≢ b'"') pre _ hp
          (All-append (λ x. x ≢ b'"') lead (codes "  ") hl (omega arith)) in
      ap (λ t. load_parts u (split_on b'"' t) m) shape
      ∙ ap (λ t. load_parts u t m) (split-entry front k v rest lacks hex)
      ∙ ap (load_parts u (split_on b'"' rest)) (add_part-entry k v m (size, hex, small))
      ∙ load_parts-rows [] (codes ",\n") entries (insert k v m) tt (omega arith) h

  -- If each key is forty lower-case hexadecimal digits and stands once, and each value is a 256-bit
  -- number, the ledger's file is read back with the same value at every key, and none at any other.
  pub load_map-persist_map :
      (entries : Entries) (k : List ℕ)
      → All IsLedgerEntry entries
      → Distinct entries
      → lookup k (load_map u (some (persist_map u entries))) ≡ lookup k entries
  unfolding load_map persist_map
  load_map-persist_map entries k h d =
      ap (lookup k) (load_parts-rows (codes "{\n") [] entries [] (omega arith) tt h)
      ∙ lookup-load entries k d
