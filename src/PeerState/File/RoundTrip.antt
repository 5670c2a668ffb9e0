-- ===== src/PeerState/File/RoundTrip.antt =====
-- `open` on what `save` writes.
use directswarm.Base.{
  ℕ, ◌≤◌, ◌≡◌, ◌≢◌, refl, ap, ◌∙◌, List, [], ◌∷◌, Option, none, some, unwrap_or, map, All,
  All-append, arith, lookup, insert, insert_all, Distinct, lookup-load, bytes_eq, u32_max, u64_max,
}
use directswarm.Base.Decimal.{decimal, parse_uint, parse_uint-decimal, IsDigit, decimal-IsDigit}
use directswarm.Base.Split.{
  lines, lines_from, split_on, Lacks, Lacks-of, split_on-append, split_on-last, lines-append,
}
use directswarm.Swarm.{IsAddress}
use directswarm.Hex.{HexCrate, IsHex}
use directswarm.PeerState.{PeerState, Store}
use directswarm.PeerState.File.{
  header, latency, columns, joined, row, rows, save, read_columns, add_row, read_rows, skip_header,
  open_file,
}

-- The fields are machine words.
pub record IsState (s : PeerState) : Type 0 where
  pub threshold : s.threshold_last ≤ u64_max
  pub latency_fits : unwrap_or s.lambda_ms 0 ≤ u64_max
  pub settled : s.settled_units ≤ u64_max
  pub last_ok : s.last_ok_unix ≤ u64_max
  pub service : s.service_cps_x10 ≤ u32_max
  pub surplus : s.surplus_units ≤ u64_max

abbrev pub IsRow : List ℕ × PeerState → Type 0
IsRow (overlay, s) = IsAddress overlay × IsState s

module _ (c : ℕ) (not_hex : (x : ℕ) → IsHex x → x ≢ c)
    (not_digit : (x : ℕ) → IsDigit x → x ≢ c) where
  decimal-Lacks : (places n : ℕ) → Lacks c (decimal places n)
  decimal-Lacks places n =
      Lacks-of IsDigit c not_digit (decimal places n) (decimal-IsDigit places n)

  latency-Lacks : (o : Option ℕ) → Lacks c (latency o)
  latency-Lacks none = tt
  latency-Lacks (some l) = decimal-Lacks 20 l

  encode-Lacks : (hex : HexCrate) (a : List ℕ) → IsAddress a → Lacks c (hex.encode a)
  encode-Lacks hex a h = Lacks-of IsHex c not_hex (hex.encode a) (hex.encode-IsHex a h)

  columns-Lacks : (s : PeerState) → All (Lacks c) (columns s)
  columns-Lacks s = (
    decimal-Lacks 20 s.threshold_last,
    (
      latency-Lacks s.lambda_ms,
      (
        decimal-Lacks 20 s.settled_units,
        (
          decimal-Lacks 20 s.last_ok_unix,
          (decimal-Lacks 10 s.service_cps_x10, (decimal-Lacks 20 s.surplus_units, tt)),
        ),
      ),
    ),
  )

  joined-Lacks :
      (first : List ℕ) (cs : List (List ℕ))
      → b',' ≢ c
      → Lacks c first
      → All (Lacks c) cs
      → Lacks c (joined first cs)
  joined-Lacks first [] comma h hs = h
  joined-Lacks first (w ∷ cs) comma h (hw, hs) =
      All-append (λ x. x ≢ c) first _ h (comma, joined-Lacks w cs comma hw hs)

-- What was joined is split again.
split-joined :
    (first : List ℕ) (cs : List (List ℕ))
    → Lacks b',' first
    → All (Lacks b',') cs
    → split_on b',' (joined first cs) ≡ first ∷ cs
split-joined first [] h hs = split_on-last b',' first h
split-joined first (w ∷ cs) h (hw, hs) =
    split_on-append b',' first (joined w cs) h ∙ ap (◌∷◌ first) (split-joined w cs hw hs)

parse-latency : (o : Option ℕ) → unwrap_or o 0 ≤ u64_max → parse_uint u64_max (latency o) ≡ o
unfolding parse_uint
parse-latency none h = refl
parse-latency (some l) h = parse_uint-decimal u64_max 19 l (omega arith) h

module _ (hex : HexCrate) where
  -- A row is read back.
  read_columns-row :
      (overlay : List ℕ) (s : PeerState)
      → IsAddress overlay
      → IsState s
      → read_columns hex (split_on b',' (row hex (overlay, s))) ≡ some (overlay, s)
  unfolding read_columns
  read_columns-row overlay s ha h =
      let not_hex : (x : ℕ) → IsHex x → x ≢ b',' = λ x d. omega arith in
      let not_digit : (x : ℕ) → IsDigit x → x ≢ b',' = λ x d. omega arith in
      ap (read_columns hex) (
        split-joined (hex.encode overlay) (columns s)
          (encode-Lacks b',' not_hex not_digit hex overlay ha)
          (columns-Lacks b',' not_hex not_digit s))
      ∙ rw
          (
            hex.decode-encode overlay ha,
            parse_uint-decimal u64_max 19 s.threshold_last (omega arith) h.threshold,
            parse-latency s.lambda_ms h.latency_fits,
            parse_uint-decimal u64_max 19 s.settled_units (omega arith) h.settled,
            parse_uint-decimal u64_max 19 s.last_ok_unix (omega arith) h.last_ok,
            parse_uint-decimal u32_max 9 s.service_cps_x10 (omega arith) h.service,
            parse_uint-decimal u64_max 19 s.surplus_units (omega arith) h.surplus,
          )
          refl

  row-Lacks :
      (c : ℕ) (not_hex : (x : ℕ) → IsHex x → x ≢ c) (not_digit : (x : ℕ) → IsDigit x → x ≢ c)
      (overlay : List ℕ) (s : PeerState)
      → b',' ≢ c
      → IsAddress overlay
      → Lacks c (row hex (overlay, s))
  row-Lacks c not_hex not_digit overlay s comma ha =
      joined-Lacks c not_hex not_digit (hex.encode overlay) (columns s) comma
        (encode-Lacks c not_hex not_digit hex overlay ha) (columns-Lacks c not_hex not_digit s)

  lines-rows : (m : Store) → All IsRow m → lines (rows hex m) ≡ map (row hex) m
  unfolding lines_from
  lines-rows [] h = refl
  lines-rows ((overlay, s) ∷ m) ((ha, hs), h) =
      lines-append (row hex (overlay, s)) (rows hex m)
        (row-Lacks 10 (λ x d. omega arith) (λ x d. omega arith) overlay s (omega arith) ha)
        (row-Lacks 13 (λ x d. omega arith) (λ x d. omega arith) overlay s (omega arith) ha)
      ∙ ap (◌∷◌ (row hex (overlay, s))) (lines-rows m h)

  read_rows-rows :
      (m loaded : Store)
      → All IsRow m
      → read_rows hex (map (row hex) m) loaded ≡ insert_all m loaded
  unfolding read_rows insert_all
  read_rows-rows [] loaded h = refl
  read_rows-rows ((overlay, s) ∷ m) loaded ((ha, hs), h) =
      ap (λ r. read_rows hex (map (row hex) m) (add_row r loaded))
        (read_columns-row overlay s ha hs)
      ∙ read_rows-rows m (insert overlay s loaded) h

  -- A store in which each address of 32 bytes stands once and each field is a machine word is
  -- written and read again: every address then has the state that it had, or none.
  pub open_file-save :
      (m : Store) (overlay : List ℕ)
      → All IsRow m
      → Distinct m
      → lookup overlay (open_file hex (some (save hex m))) ≡ lookup overlay m
  unfolding open_file save
  open_file-save m overlay h d =
      ap (λ t. lookup overlay (read_rows hex (skip_header t) []))
        (lines-append header (rows hex m) (omega arith) (omega arith)
          ∙ ap (◌∷◌ header) (lines-rows m h))
      ∙ ap (lookup overlay) (read_rows-rows m [] h)
      ∙ lookup-load m overlay d
