-- ===== src/Base/Split.antt =====
-- `str::lines`, `str::split` on a character, and `strip_prefix`.
use Prim.Native.Nat.{ℕ}
use mathlib.Core.Bool.{false}
use mathlib.Core.List.{List, [], ◌∷◌, ◌++◌, append_assoc, append-nil}
use mathlib.Core.Logic.{◌≢◌}
use mathlib.Core.Option.{Option, none, some}
use mathlib.Core.Path.{◌≡◌, refl, ap, sym, ◌∙◌}
use native.Mathlib.Omega.{arith}
use directswarm.Base.Tests.{◌==◌, ==_iff, if◌then◌else◌}
use directswarm.Base.Lists.{All, is_empty}

-- The piece that is being read, then the rest of the text.
unfoldable pub split_from : ℕ → List ℕ → List ℕ → List (List ℕ)
split_from c piece [] = piece ∷ []
split_from c piece (x ∷ xs) =
    let next = split_from c [] xs in
    let more = split_from c (piece ++ x ∷ []) xs in if x == c then piece ∷ next else more

abbrev pub split_on : ℕ → List ℕ → List (List ℕ)
split_on c text = split_from c [] text

-- `strip_suffix('\\r')` on a line that ended in a newline.
unfoldable pub strip_cr : List ℕ → List ℕ
strip_cr [] = []
strip_cr (x ∷ []) = if x == 13 then [] else x ∷ []
strip_cr (x ∷ y ∷ xs) = x ∷ strip_cr (y ∷ xs)

-- A last line without a newline is a line unless it is empty.
unfoldable pub lines_from : List ℕ → List ℕ → List (List ℕ)
lines_from piece [] = if is_empty piece then [] else piece ∷ []
lines_from piece (x ∷ xs) =
    let next = lines_from [] xs in
    let more = lines_from (piece ++ x ∷ []) xs in if x == 10 then strip_cr piece ∷ next else more

abbrev pub lines : List ℕ → List (List ℕ)
lines text = lines_from [] text

unfoldable pub strip_prefix : List ℕ → List ℕ → Option (List ℕ)
strip_prefix [] xs = some xs
strip_prefix (p ∷ ps) [] = none
strip_prefix (p ∷ ps) (x ∷ xs) = if p == x then strip_prefix ps xs else none

-- A piece without the separator.
abbrev pub Lacks : ℕ → List ℕ → Type 0
Lacks c = All (λ x. x ≢ c)

pub Lacks-of :
    (P : ℕ → Type 0) (c : ℕ) → ((x : ℕ) → P x → x ≢ c) → (w : List ℕ) → All P w → Lacks c w
Lacks-of P c f [] h = tt
Lacks-of P c f (x ∷ w) (px, h) = (f x px, Lacks-of P c f w h)

split_from-append :
    (c : ℕ) (piece w rest : List ℕ)
    → Lacks c w
    → split_from c piece (w ++ c ∷ rest) ≡ (piece ++ w) ∷ split_from c [] rest
unfolding split_from
split_from-append c piece [] rest h = ground (arith, ==_iff c c, append-nil piece)
split_from-append c piece (x ∷ w) rest (ne, h) =
    let other : x == c ≡ false = ground (arith, ==_iff x c) in
    rw other (
      split_from-append c (piece ++ x ∷ []) w rest h
      ∙ ap (λ t. t ∷ split_from c [] rest) (append_assoc piece (x ∷ []) w))

split_from-last : (c : ℕ) (piece w : List ℕ) → Lacks c w → split_from c piece w ≡ (piece ++ w) ∷ []
unfolding split_from
split_from-last c piece [] h = ap (λ t. t ∷ []) (sym (append-nil piece))
split_from-last c piece (x ∷ w) (ne, h) =
    let other : x == c ≡ false = ground (arith, ==_iff x c) in
    rw other
      (split_from-last c (piece ++ x ∷ []) w h ∙ ap (λ t. t ∷ []) (append_assoc piece (x ∷ []) w))

pub split_on-append :
    (c : ℕ) (w rest : List ℕ) → Lacks c w → split_on c (w ++ c ∷ rest) ≡ w ∷ split_on c rest
split_on-append c w rest h = split_from-append c [] w rest h

pub split_on-last : (c : ℕ) (w : List ℕ) → Lacks c w → split_on c w ≡ w ∷ []
split_on-last c w h = split_from-last c [] w h

pub strip_cr-Lacks : (w : List ℕ) → Lacks 13 w → strip_cr w ≡ w
unfolding strip_cr
strip_cr-Lacks [] h = refl
strip_cr-Lacks (x ∷ []) h = ground (arith, ==_iff x 13)
strip_cr-Lacks (x ∷ y ∷ w) (ne, h) = ap (◌∷◌ x) (strip_cr-Lacks (y ∷ w) h)

lines_from-append :
    (piece w rest : List ℕ)
    → Lacks 10 w
    → lines_from piece (w ++ 10 ∷ rest) ≡ strip_cr (piece ++ w) ∷ lines_from [] rest
unfolding lines_from
lines_from-append piece [] rest h =
    ap (λ t. strip_cr t ∷ lines_from [] rest) (sym (append-nil piece))
lines_from-append piece (x ∷ w) rest (ne, h) =
    let other : x == 10 ≡ false = ground (arith, ==_iff x 10) in
    rw other (
      lines_from-append (piece ++ x ∷ []) w rest h
      ∙ ap (λ t. strip_cr t ∷ lines_from [] rest) (append_assoc piece (x ∷ []) w))

-- A line that was printed is read back.
pub lines-append :
    (w rest : List ℕ) → Lacks 10 w → Lacks 13 w → lines (w ++ 10 ∷ rest) ≡ w ∷ lines rest
lines-append w rest h k =
    lines_from-append [] w rest h ∙ ap (λ t. t ∷ lines_from [] rest) (strip_cr-Lacks w k)

pub strip_prefix-append : (p w : List ℕ) → strip_prefix p (p ++ w) ≡ some w
unfolding strip_prefix
strip_prefix-append [] w = refl
strip_prefix-append (x ∷ p) w = ground (arith, ==_iff x x, strip_prefix-append p w)
