-- ===== src/Resume/Torn.antt =====
-- What `ResumeState::parse` of rust/ds-core/src/resume.rs makes of a sidecar of which only the first
-- bytes were written.
use mathlib.Core.Path.{subst}
use directswarm.Base.{
  ℕ, zero, suc, ◌+◌, ◌-◌, ◌*◌, ◌≤◌, ◌≡◌, ◌⊎◌, inl, inr, bytes_beq, append-nil, append_assoc, ap₂,
  refl, sym, ap, ◌∙◌, false, List, [], ◌∷◌, ◌++◌, Option, none, some, ltb, ◌==◌, ==_iff, ◌||◌,
  ◌>>=◌, take, drop, is_empty, Bool-cases, u64_max, arith,
}
use directswarm.Base.Decimal.{
  decimal, scan, parse_uint, parse_uint-decimal, digits-cons, decimal-IsDigit, IsDigit,
}
use directswarm.Swarm.{SwarmAddress, IsAddress}
use directswarm.Hex.{IsHex}
use directswarm.Resume.{
  magic, root_label, offset_label, ResumeState, hex_of, parse_hex32, render, next_line, parse_lines,
  parse,
}
use directswarm.Resume.RoundTrip.{hex_of-IsHex, parse_hex32-hex_of, value_line}
use directswarm.ChunkStore.Slices.{take-drop}
use directswarm.Base.Split.{
  lines, lines_from, Lacks, strip_prefix, strip_prefix-append, strip_cr, strip_cr-Lacks,
}

-- Nothing, or a number of at most `n`.
abbrev pub AtMost : ℕ → Option ℕ → Type 0
AtMost n none = Unit
AtMost n (some m) = m ≤ n

-- Digits only make a number larger.
scan-le : (bound : ℕ) (cs : List ℕ) (a n : ℕ) → scan bound cs a ≡ some n → a ≤ n
unfolding scan
scan-le bound [] a n e = ground (arith, e)
scan-le bound (c ∷ cs) a n e = elim (Bool-cases (ltb c b'0' || ltb b'9' c)) [
  | inl odd ↦ absurd (ground (arith, odd, e))
  | inr digit ↦ elim (Bool-cases (ltb bound (a * 10 + (c - b'0')))) [
    | inl over ↦ absurd (ground (arith, digit, over, e))
    | inr fits ↦
        let next = scan-le bound cs (a * 10 + (c - b'0')) n (ground (arith, digit, fits, e)) in
        omega (arith, next)
  ]
]

scan-AtMost :
    (bound : ℕ) (cs ds : List ℕ) (a n : ℕ)
    → scan bound (cs ++ ds) a ≡ some n
    → AtMost n (scan bound cs a)
unfolding scan
scan-AtMost bound [] ds a n e = scan-le bound ds a n e
scan-AtMost bound (c ∷ cs) ds a n e = elim (Bool-cases (ltb c b'0' || ltb b'9' c)) [
  | inl odd ↦ rw odd tt
  | inr digit ↦ elim (Bool-cases (ltb bound (a * 10 + (c - b'0')))) [
    | inl over ↦ rw (digit, over) tt
    | inr fits ↦
        rw (digit, fits)
          (scan-AtMost bound cs ds (a * 10 + (c - b'0')) n (ground (arith, digit, fits, e)))
  ]
]

-- The first digits of a number are a number that is not larger.
parse_uint-take :
    (bound n j c : ℕ) (cs : List ℕ)
    → IsDigit c
    → parse_uint bound (c ∷ cs) ≡ some n
    → AtMost n (parse_uint bound (take j (c ∷ cs)))
unfolding parse_uint
parse_uint-take bound n zero c cs d e = tt
parse_uint-take bound n (suc j) c cs d e =
    let no_sign : c == b'+' ≡ false = ground (arith, ==_iff c b'+', d) in
    let opened : parse_uint bound (c ∷ cs) ≡ scan bound (c ∷ cs) 0 = rw no_sign refl in
    rw no_sign (
      scan-AtMost bound (c ∷ take j cs) (drop j cs) 0 n
        (ap (λ t. scan bound (c ∷ t) 0) (take-drop j cs) ∙ sym opened ∙ e))

decimal-AtMost : (n j : ℕ) → n ≤ u64_max → AtMost n (parse_uint u64_max (take j (decimal 20 n)))
decimal-AtMost n j h =
    let (c, cs, e, d) = digits-cons 19 n [] in
    rw e (
      parse_uint-take u64_max n j c cs d
        (ap (parse_uint u64_max) (sym e) ∙ parse_uint-decimal u64_max 19 n (omega arith) h))

-- A label that is cut off is no label; behind it stands what is left of the value.
strip_prefix-take :
    (p w : List ℕ) (k : ℕ)
    → (strip_prefix p (take k (p ++ w)) ≡ none)
      ⊎ ((j : ℕ) × (strip_prefix p (take k (p ++ w)) ≡ some (take j w)))
unfolding strip_prefix
strip_prefix-take [] w k = inr (k, refl)
strip_prefix-take (x ∷ p) w zero = inl refl
strip_prefix-take (x ∷ p) w (suc k) = rw ((==_iff x x).1 refl) (strip_prefix-take p w k)

-- The lines of a cut text: there is none, the first one is cut and is the last, or it is whole.
abbrev Cut : List ℕ → ℕ → List ℕ → List (List ℕ) → Type 0
Cut line k rest ls =
    (ls ≡ []) ⊎ (ls ≡ take k line ∷ []) ⊎ ((j : ℕ) × (ls ≡ line ∷ lines (take j rest)))

abbrev CutFrom : List ℕ → List ℕ → ℕ → List ℕ → List (List ℕ) → Type 0
CutFrom piece w k rest ls =
    (ls ≡ [])
    ⊎ (ls ≡ (piece ++ take k w) ∷ [])
    ⊎ ((j : ℕ) × (ls ≡ strip_cr (piece ++ w) ∷ lines (take j rest)))

lines_from-CutFrom :
    (piece w rest : List ℕ) (k : ℕ)
    → Lacks 10 w
    → CutFrom piece w k rest (lines_from piece (take k (w ++ 10 ∷ rest)))
unfolding lines_from
lines_from-CutFrom piece w rest zero h = elim (Bool-cases (is_empty piece)) [
  | inl t ↦ inl (rw t refl)
  | inr t ↦ inr (inl (rw t (ap (λ x. x ∷ []) (sym (append-nil piece)))))
]
lines_from-CutFrom piece [] rest (suc k) h =
    inr (inr (k, ap (λ x. strip_cr x ∷ lines_from [] (take k rest)) (sym (append-nil piece))))
lines_from-CutFrom piece (x ∷ w) rest (suc k) (ne, h) =
    let other : x == 10 ≡ false = ground (arith, ==_iff x 10) in
    rw other (
      subst (λ t. t)
        (ap₂
          (λ one all.
            (lines_from (piece ++ x ∷ []) (take k (w ++ 10 ∷ rest)) ≡ [])
            ⊎ (lines_from (piece ++ x ∷ []) (take k (w ++ 10 ∷ rest)) ≡ one ∷ [])
            ⊎ ((j : ℕ) × (lines_from (piece ++ x ∷ []) (take k (w ++ 10 ∷ rest))
                  ≡ strip_cr all ∷ lines (take j rest))))
          (append_assoc piece (x ∷ []) (take k w)) (append_assoc piece (x ∷ []) w))
        (lines_from-CutFrom (piece ++ x ∷ []) w rest k h))

lines-Cut :
    (w rest : List ℕ) (k : ℕ)
    → Lacks 10 w
    → Lacks 13 w
    → Cut w k rest (lines (take k (w ++ 10 ∷ rest)))
lines-Cut w rest k h g = elim (lines_from-CutFrom [] w rest k h) [
  | inl e ↦ inl e
  | inr (inl e) ↦ inr (inl e)
  | inr (inr (j, e)) ↦ inr (inr (j, e ∙ ap (λ t. t ∷ lines (take j rest)) (strip_cr-Lacks w g)))
]

-- Nothing, or a state of at most an offset.
abbrev pub Below : ℕ → Option ResumeState → Type 0
Below n none = Unit
Below n (some s) = s.offset ≤ n

-- What `parse` does behind the second and behind the first line.
abbrev after_root : SwarmAddress → List (List ℕ) → Option ResumeState
after_root root ls = do
  (third, rest) ← next_line ls
  number ← strip_prefix offset_label third
  offset ← parse_uint u64_max number
  some (record { root = root; offset = offset })

abbrev after_magic : List (List ℕ) → Option ResumeState
after_magic ls = do
  (second, rest) ← next_line ls
  root_hex ← strip_prefix root_label second
  root ← parse_hex32 root_hex
  after_root root rest

abbrev with_offset : SwarmAddress → Option ℕ → Option ResumeState
with_offset root o = do offset ← o; some (record { root = root; offset = offset })

with_offset-Below :
    (root : SwarmAddress) (n : ℕ) (o : Option ℕ) → AtMost n o → Below n (with_offset root o)
with_offset-Below root n none h = tt
with_offset-Below root n (some m) h = h

after_root-Below :
    (root : SwarmAddress) (n k : ℕ) (rest : List ℕ) (ls : List (List ℕ))
    → n ≤ u64_max
    → Cut (offset_label ++ decimal 20 n) k rest ls
    → Below n (after_root root ls)
after_root-Below root n k rest ls h (inl e) = rw e tt
after_root-Below root n k rest ls h (inr (inl e)) =
    rw e (elim (strip_prefix-take offset_label (decimal 20 n) k) [
      | inl cut ↦ rw cut tt
      | inr (j, left) ↦ rw left (
          with_offset-Below root n (parse_uint u64_max (take j (decimal 20 n)))
            (decimal-AtMost n j h))
    ])
after_root-Below root n k rest ls h (inr (inr (j, e))) =
    rw
      (
        e,
        strip_prefix-append offset_label (decimal 20 n),
        parse_uint-decimal u64_max 19 n (omega arith) h,
      )
      (omega arith)

-- Without a third line there is no state.
only_root :
    (n : ℕ) (o : Option (List ℕ))
    → Below n (o >>= λ root_hex. parse_hex32 root_hex >>= λ root. none)
only_root n none = tt
only_root n (some root_hex) = go (parse_hex32 root_hex)
  where
    go : (o : Option (List ℕ)) → Below n (o >>= λ root. none)
    go none = tt
    go (some root) = tt

after_magic-Below :
    (s : ResumeState) (k : ℕ) (ls : List (List ℕ))
    → IsAddress s.root
    → s.offset ≤ u64_max
    → Cut (root_label ++ hex_of s.root) k ((offset_label ++ decimal 20 s.offset) ++ b'\n' ∷ []) ls
    → Below s.offset (after_magic ls)
after_magic-Below s k ls h n (inl e) = rw e tt
after_magic-Below s k ls h n (inr (inl e)) = rw e (only_root s.offset _)
after_magic-Below s k ls h n (inr (inr (j, e))) =
    rw (e, strip_prefix-append root_label (hex_of s.root), parse_hex32-hex_of s.root h)
      (after_root-Below s.root s.offset j [] _ n (
        lines-Cut (offset_label ++ decimal 20 s.offset) [] j
          (value_line IsDigit 10 offset_label (decimal 20 s.offset) (λ x d. omega arith)
            (omega arith) (decimal-IsDigit 20 s.offset))
          (value_line IsDigit 13 offset_label (decimal 20 s.offset) (λ x d. omega arith)
            (omega arith) (decimal-IsDigit 20 s.offset))))

-- The first bytes of the sidecar of an address and a 64-bit offset, however many, are no sidecar, or one
-- whose offset is not larger.
pub parse-take :
    (s : ResumeState) (k : ℕ)
    → IsAddress s.root
    → s.offset ≤ u64_max
    → Below s.offset (parse (take k (render s)))
unfolding parse parse_lines render
parse-take s k h n =
    go
      (lines (
        take k (
          magic
          ++ b'\n'
            ∷ ((root_label ++ hex_of s.root)
                ++ b'\n' ∷ ((offset_label ++ decimal 20 s.offset) ++ b'\n' ∷ [])))))
      (lines-Cut magic _ k (omega arith) (omega arith))
  where
    go :
        (ls : List (List ℕ))
        → Cut magic k
            ((root_label ++ hex_of s.root)
              ++ b'\n' ∷ ((offset_label ++ decimal 20 s.offset) ++ b'\n' ∷ []))
            ls
        → Below s.offset (parse_lines ls)
    go ls (inl e) = rw e tt
    go ls (inr (inl e)) =
        rw e
          (elim (Bool-cases (bytes_beq (take k magic) magic)) [ inl t ↦ rw t tt | inr t ↦ rw t tt ])
    go ls (inr (inr (j, e))) = rw e (
        after_magic-Below s j _ h n (
          lines-Cut (root_label ++ hex_of s.root) _ j
            (value_line IsHex 10 root_label (hex_of s.root) (λ x d. omega arith) (omega arith)
              (hex_of-IsHex s.root h.bytes))
            (value_line IsHex 13 root_label (hex_of s.root) (λ x d. omega arith) (omega arith)
              (hex_of-IsHex s.root h.bytes))))
