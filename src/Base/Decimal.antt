-- ===== src/Base/Decimal.antt =====
-- Unsigned numbers in decimal, as `Display` prints them and `str::parse` reads them.
use Prim.Native.Nat.{ℕ, zero, suc, ◌+◌, ◌-◌, ◌*◌, ◌/◌, ◌%◌, ◌^◌, ◌≤◌, ◌<◌}
use mathlib.Core.Bool.{◌||◌}
use mathlib.Core.List.{List, [], ◌∷◌}
use mathlib.Core.Logic.{inl, inr}
use mathlib.Core.Option.{Option, none, some}
use mathlib.Core.Path.{◌≡◌, refl, ap, sym, ◌∙◌}
use native.Mathlib.Nat.{pow-suc}
use native.Mathlib.Omega.{arith}
use directswarm.Base.Tests.{ltb, ◌==◌, ==_iff, if◌then◌else◌, Bool-cases}
use directswarm.Base.Lists.{All}

-- At most `places` digits, lowest first onto what stands behind.
unfoldable pub digits : ℕ → ℕ → List ℕ → List ℕ
digits zero n out = out
digits (suc places) n out =
    let front = (b'0' + n % 10) ∷ out in
    let more = digits places (n / 10) front in if n / 10 == 0 then front else more

-- `{}` of a number below `10 ^ places`.
abbrev pub decimal : ℕ → ℕ → List ℕ
decimal places n = digits places n []

-- The checked multiplication and addition of each digit, up to the type's largest number.
unfoldable pub scan : ℕ → List ℕ → ℕ → Option ℕ
scan bound [] n = some n
scan bound (c ∷ cs) n =
    if ltb c b'0' || ltb b'9' c
    then none
    else if ltb bound (n * 10 + (c - b'0'))
    then none
    else scan bound cs (n * 10 + (c - b'0'))

abbrev scan_some : ℕ → List ℕ → Option ℕ
scan_some bound [] = none
scan_some bound (c ∷ cs) = scan bound (c ∷ cs) 0

-- `str::parse`: a leading `+` is taken, an empty text is refused.
unfoldable pub parse_uint : ℕ → List ℕ → Option ℕ
parse_uint bound [] = none
parse_uint bound (c ∷ cs) = if c == b'+' then scan_some bound cs else scan_some bound (c ∷ cs)

abbrev pub IsDigit : ℕ → Type 0
IsDigit c = (b'0' ≤ c) × (c ≤ b'9')

pub digits-IsDigit :
    (places n : ℕ) (out : List ℕ) → All IsDigit out → All IsDigit (digits places n out)
unfolding digits
digits-IsDigit zero n out h = h
digits-IsDigit (suc places) n out h =
    let front : All IsDigit ((b'0' + n % 10) ∷ out) = ((omega arith, omega arith), h) in
    elim (Bool-cases (n / 10 == 0)) [
      | inl last ↦ rw last front
      | inr more ↦ rw more (digits-IsDigit places (n / 10) ((b'0' + n % 10) ∷ out) front)
    ]

pub decimal-IsDigit : (places n : ℕ) → All IsDigit (decimal places n)
decimal-IsDigit places n = digits-IsDigit places n [] tt

scan_digit :
    (bound n d : ℕ) (out : List ℕ)
    → d < 10
    → n * 10 + d ≤ bound
    → scan bound ((b'0' + d) ∷ out) n ≡ scan bound out (n * 10 + d)
unfolding scan
scan_digit bound n d out h k = let e : b'0' + d - b'0' ≡ d = omega arith in rw e (ground arith)

step_down : (n places : ℕ) → n < 10 ^ suc places → n / 10 < 10 ^ places
step_down n places h = let e = pow-suc 10 places in omega (arith, e)

-- There is a first digit.
pub digits-cons :
    (places n : ℕ) (out : List ℕ)
    → (c : ℕ) × (cs : List ℕ) × (digits (suc places) n out ≡ c ∷ cs) × IsDigit c
unfolding digits
digits-cons zero n out = (b'0' + n % 10, out, ground arith, (omega arith, omega arith))
digits-cons (suc places) n out = elim (Bool-cases (n / 10 == 0)) [
  | inl last ↦ (b'0' + n % 10, out, rw last refl, (omega arith, omega arith))
  | inr more ↦
      let (c, cs, e, d) = digits-cons places (n / 10) ((b'0' + n % 10) ∷ out) in
      (c, cs, rw more e, d)
]

scan_last :
    (bound n : ℕ) (out : List ℕ)
    → n ≤ bound
    → scan bound ((b'0' + n % 10) ∷ out) (n / 10) ≡ scan bound out n
scan_last bound n out fits =
    let e : n / 10 * 10 + n % 10 ≡ n = omega arith in
    scan_digit bound (n / 10) (n % 10) out (omega arith) (omega arith) ∙ ap (scan bound out) e

scan-digits :
    (bound places n : ℕ) (out : List ℕ)
    → n < 10 ^ suc places
    → n ≤ bound
    → scan bound (digits (suc places) n out) 0 ≡ scan bound out n
unfolding digits
scan-digits bound zero n out small fits =
    let e : n / 10 ≡ 0 = omega arith in
    rw e (ap (scan bound ((b'0' + n % 10) ∷ out)) (sym e) ∙ scan_last bound n out fits)
scan-digits bound (suc places) n out small fits = elim (Bool-cases (n / 10 == 0)) [
  | inl last ↦
      let e : n / 10 ≡ 0 = (==_iff (n / 10) 0).0 last in
      rw last (ap (scan bound ((b'0' + n % 10) ∷ out)) (sym e) ∙ scan_last bound n out fits)
  | inr more ↦ rw more (
      scan-digits bound places (n / 10) ((b'0' + n % 10) ∷ out) (step_down n (suc places) small)
        (omega arith)
      ∙ scan_last bound n out fits)
]

-- Every number of the type is read back from its print.
pub parse_uint-decimal :
    (bound places n : ℕ)
    → n < 10 ^ suc places
    → n ≤ bound
    → parse_uint bound (decimal (suc places) n) ≡ some n
unfolding parse_uint
parse_uint-decimal bound places n small fits =
    let (c, cs, e, d) = digits-cons places n [] in
    let at_end : scan bound [] n ≡ some n = unfold scan in refl in
    let all =
      ap (λ t. scan bound t 0) (sym e) ∙ scan-digits bound places n [] small fits ∙ at_end in
    rw e (elim (Bool-cases (c == b'+')) [
      | inl plus ↦ absurd (ground arith)
      | inr digit ↦ rw digit all
    ])
