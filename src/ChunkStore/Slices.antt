-- ===== src/ChunkStore/Slices.antt =====
-- Reading back what a write put into the data file, and what it left alone.
use directswarm.Base.{
  ℕ, zero, suc, ◌+◌, ◌-◌, ◌≤◌, ◌≡◌, refl, ap, sym, ◌∙◌, [], ◌∷◌, ◌++◌, arith, length, take, drop,
  length-append, length-take, take-append, drop-append,
}
use directswarm.Wire.{Bytes}
use directswarm.ChunkStore.{slice, write_at}

pub take-short : (n : ℕ) (xs ys : Bytes) → n ≤ length xs → take n (xs ++ ys) ≡ take n xs
take-short zero xs ys h = refl
take-short (suc n) [] ys h = absurd (omega arith)
take-short (suc n) (x ∷ xs) ys h = ap (◌∷◌ x) (take-short n xs ys (omega arith))

slice-append :
    (offset n : ℕ) (xs ys : Bytes)
    → offset + n ≤ length xs
    → slice offset n (xs ++ ys) ≡ slice offset n xs
slice-append zero n xs ys h = take-short n xs ys (omega arith)
slice-append (suc offset) n [] ys h = absurd (omega arith)
slice-append (suc offset) n (x ∷ xs) ys h = slice-append offset n xs ys (omega arith)

pub take-drop : (n : ℕ) (xs : Bytes) → take n xs ++ drop n xs ≡ xs
take-drop zero xs = refl
take-drop (suc n) [] = refl
take-drop (suc n) (x ∷ xs) = ap (◌∷◌ x) (take-drop n xs)

length-drop : (n : ℕ) (xs : Bytes) → length (drop n xs) ≡ length xs - n
length-drop zero xs = omega arith
length-drop (suc n) [] = omega arith
length-drop (suc n) (x ∷ xs) = omega (arith, length-drop n xs)

module _ (at : ℕ) (bytes file : Bytes) (h : at ≤ length file) where
  length_front : length (take at file) ≡ at
  length_front = omega (arith, length-take at file)

  -- What stands before the write is as it was.
  pub slice-write_at :
      (offset n : ℕ)
      → offset + n ≤ at
      → slice offset n (write_at at bytes file) ≡ slice offset n file
  unfolding write_at
  slice-write_at offset n le =
      slice-append offset n (take at file) (bytes ++ drop (at + length bytes) file)
        (omega (arith, length_front))
      ∙ sym (slice-append offset n (take at file) (drop at file) (omega (arith, length_front)))
      ∙ ap (slice offset n) (take-drop at file)

  -- What was written is read.
  pub slice-write_at_same : slice at (length bytes) (write_at at bytes file) ≡ bytes
  unfolding write_at
  slice-write_at_same =
      ap (λ k. take (length bytes) (drop k (write_at at bytes file))) (sym length_front)
      ∙ ap (take (length bytes))
          (drop-append (take at file) (bytes ++ drop (at + length bytes) file))
      ∙ take-append bytes (drop (at + length bytes) file)

  -- The file reaches at least to the end of what was written, and it does not shrink.
  pub length-write_at :
      (at + length bytes ≤ length (write_at at bytes file))
      × (length file ≤ length (write_at at bytes file))
  unfolding write_at
  length-write_at =
      let whole = length-append (take at file) (bytes ++ drop (at + length bytes) file) in
      let behind = length-append bytes (drop (at + length bytes) file) in
      let rest = length-drop (at + length bytes) file in
      (omega (arith, length_front, whole, behind), omega (arith, length_front, whole, behind, rest))
