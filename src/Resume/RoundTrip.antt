-- ===== src/Resume/RoundTrip.antt =====
-- `ResumeState::parse` of rust/ds-core/src/resume.rs on what `render` writes.
use directswarm.Base.{
  ℕ, ◌+◌, ◌*◌, ◌/◌, ◌%◌, ◌≤◌, ◌<◌, ◌≡◌, ◌≢◌, refl, ap, ◌∙◌, false, List, [], ◌∷◌, ◌++◌, some, ltb,
  not, length, any, All, All-append, u64_max, arith,
}
use directswarm.Base.Decimal.{decimal, parse_uint-decimal, IsDigit, decimal-IsDigit}
use directswarm.Base.Split.{lines, lines_from, Lacks, Lacks-of, lines-append, strip_prefix-append}
use directswarm.Swarm.{SwarmAddress, IsAddress, IsByte}
use directswarm.Hex.{IsHex}
use directswarm.Resume.{
  magic, root_label, offset_label, ResumeState, hex_digit, hex_of, to_digit, hex_pairs, parse_hex32,
  render, parse_lines, parse,
}

pub to_digit-hex_digit : (n : ℕ) → n < 16 → to_digit (hex_digit n) ≡ some n
unfolding to_digit hex_digit
to_digit-hex_digit n h = ground arith

hex_digit-IsHex : (n : ℕ) → n < 16 → IsHex (hex_digit n)
unfolding hex_digit
hex_digit-IsHex n h = ground arith

pub hex_of-IsHex : (bytes : List ℕ) → All IsByte bytes → All IsHex (hex_of bytes)
unfolding hex_of
hex_of-IsHex [] h = tt
hex_of-IsHex (b ∷ bytes) (hb, h) = (
  hex_digit-IsHex (b / 16) (omega arith),
  (hex_digit-IsHex (b % 16) (omega arith), hex_of-IsHex bytes h),
)

pub length-hex_of : (bytes : List ℕ) → length (hex_of bytes) ≡ 2 * length bytes
unfolding hex_of
length-hex_of [] = omega arith
length-hex_of (b ∷ bytes) = omega (arith, length-hex_of bytes)

pub hex_pairs-hex_of : (bytes : List ℕ) → All IsByte bytes → hex_pairs (hex_of bytes) ≡ some bytes
unfolding hex_pairs hex_of
hex_pairs-hex_of [] h = refl
hex_pairs-hex_of (b ∷ bytes) (hb, h) =
    let e : b / 16 * 16 + b % 16 ≡ b = omega arith in
    rw
      (
        to_digit-hex_digit (b / 16) (omega arith),
        to_digit-hex_digit (b % 16) (omega arith),
        hex_pairs-hex_of bytes h,
      )
      (ap (λ t. some (t ∷ bytes)) e)

ascii_lem : (s : List ℕ) → All IsHex s → any (λ c. not (ltb c 128)) s ≡ false
ascii_lem [] h = refl
ascii_lem (c ∷ s) (hc, h) = ground (arith, ascii_lem s h)

pub parse_hex32-hex_of : (a : SwarmAddress) → IsAddress a → parse_hex32 (hex_of a) ≡ some a
unfolding parse_hex32
parse_hex32-hex_of a h =
    let e : length (hex_of a) ≡ 64 = omega (arith, length-hex_of a, h.size) in
    rw (e, ascii_lem (hex_of a) (hex_of-IsHex a h.bytes)) (hex_pairs-hex_of a h.bytes)

-- A label and a value without a character.
pub value_line :
    (P : ℕ → Type 0) (c : ℕ) (label w : List ℕ)
    → ((x : ℕ) → P x → x ≢ c)
    → Lacks c label
    → All P w
    → Lacks c (label ++ w)
value_line P c label w f h all = All-append (λ x. x ≢ c) label w h (Lacks-of P c f w all)

-- A label and a value without line ends are one line.
label_line :
    (P : ℕ → Type 0) (label w rest : List ℕ)
    → ((x : ℕ) → P x → x ≢ 10)
    → ((x : ℕ) → P x → x ≢ 13)
    → Lacks 10 label
    → Lacks 13 label
    → All P w
    → lines ((label ++ w) ++ 10 ∷ rest) ≡ (label ++ w) ∷ lines rest
label_line P label w rest f g h k all =
    lines-append (label ++ w) rest (value_line P 10 label w f h all)
      (value_line P 13 label w g k all)

lines-render :
    (s : ResumeState)
    → IsAddress s.root
    → lines (render s)
      ≡ magic ∷ (root_label ++ hex_of s.root) ∷ (offset_label ++ decimal 20 s.offset) ∷ []
unfolding render
lines-render s h =
    lines-append magic _ (omega arith) (omega arith)
    ∙ ap (◌∷◌ magic) (
        label_line IsHex root_label (hex_of s.root) _ (λ x d. omega arith) (λ x d. omega arith)
          (omega arith) (omega arith) (hex_of-IsHex s.root h.bytes)
        ∙ ap (◌∷◌ (root_label ++ hex_of s.root)) (
            label_line IsDigit offset_label (decimal 20 s.offset) [] (λ x d. omega arith)
              (λ x d. omega arith) (omega arith) (omega arith) (decimal-IsDigit 20 s.offset)
            ∙ at_end))
  where
    at_end :
        (offset_label ++ decimal 20 s.offset) ∷ lines []
        ≡ (offset_label ++ decimal 20 s.offset) ∷ []
    at_end = unfold lines_from in refl

-- A state whose root is an address and whose offset is a 64-bit number is read back from its text.
pub parse-render :
    (s : ResumeState) → IsAddress s.root → s.offset ≤ u64_max → parse (render s) ≡ some s
unfolding parse parse_lines
parse-render s h k =
    rw
      (
        lines-render s h,
        strip_prefix-append root_label (hex_of s.root),
        parse_hex32-hex_of s.root h,
        strip_prefix-append offset_label (decimal 20 s.offset),
        parse_uint-decimal u64_max 19 s.offset (omega arith) k,
      )
      refl
