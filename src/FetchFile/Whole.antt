-- ===== src/FetchFile/Whole.antt =====
-- `fetch_to_file` from its sidecar to its result, whatever the joiner and the disk do.
use mathlib.Core.Path.{subst}
use directswarm.Base.{
  ℕ, ◌+◌, ◌-◌, ◌≤◌, ◌≡◌, refl, ap, sym, ◌∙◌, Bool, true, false, not, ◌&&◌, [], ◌++◌, append-nil,
  Option, none, some, ltb, arith, inl, inr, Bool-cases, length, length-take, take, drop, replicate,
  take-append, u64_max,
}
use directswarm.Base.Results.{Result, ok, err}
use directswarm.Swarm.{SwarmAddress, IsAddress}
use directswarm.Wire.{Bytes}
use directswarm.ChunkStore.Slices.{take-drop}
use directswarm.FetchFile.{
  FetchError, FetchOutcome, Output, Disk, read_resume_offset, commit_sidecar, consume, set_len,
  remove_sidecar, finish, Joiner, fetch_from, fetch_to_file,
}
use directswarm.FetchFile.Resumes.{
  Verified, Delivers, read_resume_offset-le, Writing, Writing-Verified, committed-Writing,
}
use directswarm.FetchFile.Consumer.{Consumed, consume-Consumed}

-- What a fetch leaves: a verified sidecar, and after a success the whole body, on the disk, its length
-- accounted for.
abbrev pub Fetched : SwarmAddress → Bytes → Output × Result FetchError FetchOutcome → Type 0
Fetched root body (s, err e) = Verified root body s
Fetched root body (s, ok out) =
    Verified root body s
    × (take (length body) s.file ≡ body)
    × (length body ≤ s.synced)
    × (out.total_span ≡ length body)
    × (out.resumed_from + out.bytes_written ≡ length body)

take_all : (xs : Bytes) → take (length xs) xs ≡ xs
take_all xs = ap (take (length xs)) (sym (append-nil xs)) ∙ take-append xs []

module _ (root : SwarmAddress) (body : Bytes) (is_root : IsAddress root)
    (fits : length body ≤ u64_max) (disk : Disk) where
  removed-Verified :
      (s : Output) → Verified root body s → Verified root body (remove_sidecar disk s)
  unfolding read_resume_offset
  removed-Verified s h = elim (Bool-cases disk.removes) [
    | inl gone ↦ rw gone (omega arith, h.1, refl)
    | inr stays ↦ rw stays h
  ]

  removed-file : (s : Output) → (remove_sidecar disk s).file ≡ s.file
  removed-file s = ground arith

  removed-synced : (s : Output) → (remove_sidecar disk s).synced ≡ s.synced
  removed-synced s = ground arith

  finish-Fetched :
      (start : ℕ) (joined : Bool) (tail : Bytes) (r : Output × Option ℕ)
      → start ≤ length body
      → (joined ≡ true → tail ≡ [])
      → Consumed root body is_root fits tail r
      → Fetched root body (finish disk root (length body) start joined r)
  unfolding finish
  finish-Fetched start joined tail (s, none) le all (more, h, exact) =
      Writing-Verified root body is_root fits s more h
  finish-Fetched start true tail (s, some written) le all (more, h, exact) =
      let (at_end, left_over, all_synced) = exact written refl in
      let full : body ≡ s.file =
        h.prefix ∙ ap (λ t. s.file ++ t) (left_over ∙ all refl) ∙ append-nil s.file in
      (
        removed-Verified s (Writing-Verified root body is_root fits s more h),
        ap (take (length body)) (removed-file s ∙ sym full) ∙ take_all body,
        omega (arith, ap length full, all_synced, removed-synced s),
        refl,
        omega (arith, ap length full, at_end),
      )
  finish-Fetched start false tail (s, some written) le all (more, h, exact) =
      let (at_end, left_over, all_synced) = exact written refl in
      Writing-Verified root body is_root fits (commit_sidecar root written disk.last_commit s).0
        more
        (committed-Writing root body is_root fits s more disk.last_commit written at_end all_synced
          h)

  -- Only what was verified is kept of the file.
  start-Writing :
      (s : Output)
      → Verified root body s
      → (let start = read_resume_offset root (length body) s.sidecar in
          (start ≡ length (set_len start s).file)
          × Writing root body is_root fits (set_len start s) (drop start body))
  start-Writing s (within, there, same) =
      let start = read_resume_offset root (length body) s.sidecar in
      let no_zeros : start - length s.file ≡ 0 = omega arith in
      let cut_off : (set_len start s).file ≡ take start s.file =
        ap (λ n. take start s.file ++ replicate n 0) no_zeros ∙ append-nil (take start s.file) in
      let size : length (set_len start s).file ≡ start =
        ap length cut_off ∙ omega (arith, length-take start s.file) in
      (
        sym size,
        record {
          prefix = sym (ap (λ t. t ++ drop start body) (cut_off ∙ same) ∙ take-drop start body);
          behind = omega (arith, within);
          within = omega (arith, size);
        },
      )

  fetch_from-Fetched :
      (join : Joiner) (s : Output)
      → Verified root body s
      → ((start : ℕ) → Delivers body start (join start))
      → Fetched root body (
          fetch_from join disk root
            (length body)
            (read_resume_offset root (length body) s.sidecar)
            s)
  unfolding fetch_from consume finish
  fetch_from-Fetched join s h delivers =
      let start = read_resume_offset root (length body) s.sidecar in
      let below = read_resume_offset-le root (length body) s.sidecar in
      elim (Bool-cases (ltb 0 (length body) && not (ltb start (length body)))) [
        | inl complete ↦
            let reached : start ≡ length body = ground arith in
            rw complete (
              removed-Verified s h,
              ap (take (length body)) (removed-file s)
                  ∙ ap (λ n. take n s.file) (sym reached)
                  ∙ h.2
                  ∙ ap (λ n. take n body) reached
                  ∙ take_all body,
              omega (arith, reached, h.0, removed-synced s),
              refl,
              omega (arith, reached),
            )
        | inr more ↦ elim (Bool-cases disk.opens) [
          | inl opened ↦
              let (tail, split, all) = delivers start in
              let (at_start, writing) = start-Writing s h in
              rw (more, opened)
                (finish-Fetched start (join start).1 tail _ below all (
                  consume-Consumed root body is_root fits disk start start (join start).0 tail
                    (set_len start s) at_start
                    (subst (Writing root body is_root fits (set_len start s)) split writing)))
          | inr refused ↦ rw (more, refused) h
        ]
      ]

  -- For the address of a root and a body of a 64-bit length that its span announces, if the joiner
  -- delivers bytes of the body in order from the offset it is given, and all of them when it reports no
  -- error: whatever root chunk is fetched, and whatever the joiner and the disk do (a write cut short, a
  -- sync that fails and loses what was not synced before, a sidecar of which only the first bytes are
  -- written), the sidecar never vouches for bytes that are not those of the body or that are not synced,
  -- given that it did not before; and when the fetch succeeds, the file begins with the whole body, all
  -- of it synced, and the resumed and the written bytes add up to its length.
  pub fetch_to_file-Fetched :
      (span : Bytes → ℕ) (root_wire : Option Bytes) (join : Joiner) (s : Output)
      → ((wire : Bytes) → root_wire ≡ some wire → span (take 8 wire) ≡ length body)
      → ((start : ℕ) → Delivers body start (join start))
      → Verified root body s
      → Fetched root body (fetch_to_file span root_wire join disk root s)
  unfolding fetch_to_file
  fetch_to_file-Fetched span none join s announces delivers h = h
  fetch_to_file-Fetched span (some wire) join s announces delivers h =
      elim (Bool-cases (ltb (length wire) 8)) [
        | inl short ↦ rw short h
        | inr spanned ↦
            let e = announces wire refl in rw (spanned, e) (fetch_from-Fetched join s h delivers)
      ]
