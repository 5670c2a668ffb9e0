-- ===== src/ChunkStore/Reopen.antt =====
-- A store that is flushed and opened again.
use directswarm.Base.{
  ℕ, ◌≤◌, ◌≡◌, ◌≢◌, refl, ap, ◌∙◌, true, false, [], ◌∷◌, ◌++◌, map, some, ltb, arith, All,
  All-append, length, lookup, insert, insert_all, Distinct, lookup-load, bytes_eq, codes, u32_max,
  u64_max, wrap_add,
}
use directswarm.Base.Decimal.{decimal, parse_uint-decimal, IsDigit, decimal-IsDigit}
use directswarm.Base.Split.{
  lines, lines_from, split_on, Lacks, Lacks-of, split_on-append, split_on-last, lines-append,
}
use directswarm.Swarm.{SwarmAddress, IsAddress}
use directswarm.Hex.{HexCrate, IsHex}
use directswarm.ChunkStore.{
  magic, Index, Store, entry_line, entry_lines, render_index, flush_locked, parse_entry, add_entry,
  load_lines, load_text, load_index, open_store, read_at, get_chunk,
}
use directswarm.ChunkStore.Refines.{IsEntry, IsSound, weaken-IsEntry}

module _ (hex : HexCrate) where
  module _ (c : ℕ) (not_hex : (x : ℕ) → IsHex x → x ≢ c)
      (not_digit : (x : ℕ) → IsDigit x → x ≢ c) where
    encode-Lacks : (a : SwarmAddress) → IsAddress a → Lacks c (hex.encode a)
    encode-Lacks a h = Lacks-of IsHex c not_hex (hex.encode a) (hex.encode-IsHex a h)

    decimal-Lacks : (places n : ℕ) → Lacks c (decimal places n)
    decimal-Lacks places n =
        Lacks-of IsDigit c not_digit (decimal places n) (decimal-IsDigit places n)

    entry_line-Lacks :
        (a : SwarmAddress) (offset len : ℕ)
        → IsAddress a
        → b',' ≢ c
        → Lacks c (entry_line hex (a, (offset, len)))
    entry_line-Lacks a offset len h comma =
        All-append (λ x. x ≢ c) (hex.encode a) _ (encode-Lacks a h)
          (
            comma,
            All-append (λ x. x ≢ c) (decimal 20 offset) _ (decimal-Lacks 20 offset)
                (comma, decimal-Lacks 10 len),
          )

  split-entry_line :
      (a : SwarmAddress) (offset len : ℕ)
      → IsAddress a
      → split_on b',' (entry_line hex (a, (offset, len)))
        ≡ hex.encode a ∷ decimal 20 offset ∷ decimal 10 len ∷ []
  split-entry_line a offset len h =
      let not_hex : (x : ℕ) → IsHex x → x ≢ b',' = λ x d. omega arith in
      let not_digit : (x : ℕ) → IsDigit x → x ≢ b',' = λ x d. omega arith in
      split_on-append b',' (hex.encode a) _ (encode-Lacks b',' not_hex not_digit a h)
      ∙ ap (◌∷◌ (hex.encode a)) (
          split_on-append b',' (decimal 20 offset) _
            (decimal-Lacks b',' not_hex not_digit 20 offset)
          ∙ ap (◌∷◌ (decimal 20 offset))
              (split_on-last b',' (decimal 10 len) (decimal-Lacks b',' not_hex not_digit 10 len)))

  -- An entry's line is read back.
  parse_entry-entry_line :
      (a : SwarmAddress) (offset len : ℕ)
      → IsAddress a
      → offset ≤ u64_max
      → len ≤ u32_max
      → parse_entry hex (entry_line hex (a, (offset, len))) ≡ some (a, (offset, len))
  unfolding parse_entry
  parse_entry-entry_line a offset len h o l =
      rw
        (
          split-entry_line a offset len h,
          hex.decode-encode a h,
          parse_uint-decimal u64_max 19 offset (omega arith) o,
          parse_uint-decimal u32_max 9 len (omega arith) l,
        )
        refl

  lines-entry_lines :
      (limit : ℕ) (index : Index)
      → All (IsEntry limit) index
      → lines (entry_lines hex index) ≡ map (entry_line hex) index
  unfolding lines_from
  lines-entry_lines limit [] h = refl
  lines-entry_lines limit ((a, (offset, len)) ∷ index) ((ha, fits, small), h) =
      lines-append (entry_line hex (a, (offset, len))) (entry_lines hex index)
        (entry_line-Lacks 10 (λ x d. omega arith) (λ x d. omega arith) a offset len ha
          (omega arith))
        (entry_line-Lacks 13 (λ x d. omega arith) (λ x d. omega arith) a offset len ha
          (omega arith))
      ∙ ap (◌∷◌ (entry_line hex (a, (offset, len)))) (lines-entry_lines limit index h)

  add_entry-entry_line :
      (limit : ℕ) (a : SwarmAddress) (offset len : ℕ) (index : Index)
      → limit ≤ u64_max
      → IsEntry limit (a, (offset, len))
      → add_entry limit (parse_entry hex (entry_line hex (a, (offset, len)))) index
        ≡ insert a (offset, len) index
  add_entry-entry_line limit a offset len index top (ha, fits, small) =
      let keeps : ltb limit (wrap_add offset len) ≡ false = ground arith in
      rw (parse_entry-entry_line a offset len ha (omega arith) small, keeps) refl

  -- The lines of a map's entries insert its entries.
  load_lines-entry_lines :
      (limit : ℕ) (index loaded : Index)
      → limit ≤ u64_max
      → All (IsEntry limit) index
      → load_lines hex limit (map (entry_line hex) index) loaded ≡ insert_all index loaded
  unfolding load_lines insert_all
  load_lines-entry_lines limit [] loaded top h = refl
  load_lines-entry_lines limit ((a, (offset, len)) ∷ index) loaded top (ha, h) =
      ap (load_lines hex limit (map (entry_line hex) index))
        (add_entry-entry_line limit a offset len loaded top ha)
      ∙ load_lines-entry_lines limit index (insert a (offset, len) loaded) top h

  lines-render_index :
      (limit end_of_data : ℕ) (index : Index)
      → All (IsEntry limit) index
      → lines (render_index hex end_of_data index)
        ≡ magic ∷ (codes "end=" ++ decimal 20 end_of_data) ∷ map (entry_line hex) index
  unfolding render_index
  lines-render_index limit end_of_data index h =
      let digits_lack : (c : ℕ) → ((x : ℕ) → IsDigit x → x ≢ c) → Lacks c (decimal 20 end_of_data) =
        λ c f. Lacks-of IsDigit c f (decimal 20 end_of_data) (decimal-IsDigit 20 end_of_data) in
      lines-append magic _ (omega arith) (omega arith)
      ∙ ap (◌∷◌ magic) (
          lines-append (codes "end=" ++ decimal 20 end_of_data) (entry_lines hex index)
            (All-append (λ x. x ≢ 10) (codes "end=") _ (omega arith)
              (digits_lack 10 (λ x d. omega arith)))
            (All-append (λ x. x ≢ 13) (codes "end=") _ (omega arith)
              (digits_lack 13 (λ x d. omega arith)))
          ∙ ap (◌∷◌ (codes "end=" ++ decimal 20 end_of_data)) (lines-entry_lines limit index h))

  lookup-load_index :
      (end_of_data limit : ℕ) (index : Index) (k : SwarmAddress)
      → limit ≤ u64_max
      → All (IsEntry limit) index
      → Distinct index
      → lookup k (load_index hex (some (render_index hex end_of_data index)) limit) ≡ lookup k index
  unfolding load_index lookup
  lookup-load_index end_of_data limit index k top h d =
      ap (λ t. lookup k (load_text hex limit t)) (lines-render_index limit end_of_data index h)
      ∙ ap (lookup k) (load_lines-entry_lines limit index [] top h)
      ∙ lookup-load index k d

  -- A sound store whose data file has a 64-bit length is flushed without a failure and opened again
  -- from its data file and its sidecar: every address then reads as it did, absent or the same
  -- bytes.
  pub get_chunk-open_store :
      (s : Store) (k : SwarmAddress)
      → IsSound s
      → length s.dat ≤ u64_max
      → (let (s', flushed) = flush_locked hex true s in
          (flushed ≡ true) × (get_chunk (open_store hex s'.dat s'.sidecar) k ≡ get_chunk s k))
  unfolding get_chunk flush_locked open_store
  get_chunk-open_store s k h top =
      let entries = weaken-IsEntry s.end_of_data (length s.dat) s.index h.within h.entries in
      (
        refl,
        ap (read_at s.dat)
            (lookup-load_index s.end_of_data (length s.dat) s.index k top entries h.distinct),
      )
