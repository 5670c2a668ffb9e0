-- ===== src/FetchFile/Resumes.antt =====
-- What the output of `fetch_to_file` (rust/ds-net/src/fetch.rs) and its sidecar say of the body, and what
-- syncs and commits do to that.
use directswarm.Base.{
  ℕ, ◌≤◌, ◌≡◌, max, length-take, refl, ap, sym, ◌∙◌, Bool, true, List, [], ◌∷◌, ◌++◌, append_assoc,
  Option, none, some, arith, length, length-append, take, drop, bytes_beq_iff, u64_max,
}
use directswarm.Swarm.{SwarmAddress, IsAddress}
use directswarm.Wire.{Bytes}
use directswarm.ChunkStore.Slices.{take-short, take-drop}
use directswarm.Resume.{ResumeState, render, parse}
use directswarm.Resume.RoundTrip.{parse-render}
use directswarm.Resume.Torn.{Below, parse-take}
use directswarm.FetchFile.{
  commit_interval, FetchError, FetchOutcome, Output, Commit, done, kept, cut, Sync, synced, lost,
  sync_data, Disk, read_resume_offset, committed, commit_sidecar, consume, set_len, remove_sidecar,
  finish, Joiner, fetch_from, fetch_to_file,
}

abbrev pub flat : List Bytes → Bytes
flat [] = []
flat (buf ∷ rest) = buf ++ flat rest

-- The offset from which a run would resume stands for bytes of the body that are on the disk.
abbrev pub Verified : SwarmAddress → Bytes → Output → Type 0
Verified root body s =
    let o = read_resume_offset root (length body) s.sidecar in
    (o ≤ s.synced) × (s.synced ≤ length s.file) × (take o s.file ≡ take o body)

-- The joiner delivers what stands in the body from an offset, all of it if it comes to the end.
abbrev pub Delivers : Bytes → ℕ → List Bytes × Bool → Type 0
Delivers body start (bufs, finished) =
    (tail : Bytes) × (drop start body ≡ flat bufs ++ tail) × (finished ≡ true → tail ≡ [])

pub read_resume_offset-le :
    (root : SwarmAddress) (total : ℕ) (o : Option (List ℕ))
    → read_resume_offset root total o ≤ total
unfolding read_resume_offset
read_resume_offset-le root total none = omega arith
read_resume_offset-le root total (some text) = go (parse text)
  where
    go : (o : Option ResumeState) → directswarm.FetchFile.offset_in root total o ≤ total
    go none = omega arith
    go (some s) = ground arith

module _ (root : SwarmAddress) (body : Bytes) (is_root : IsAddress root)
    (fits : length body ≤ u64_max) where
  -- While the file is written it is a prefix of the body, and the sidecar does not go beyond what is on
  -- the disk.
  pub record Writing (s : Output) (more : Bytes) : Type 0 where
    pub prefix : body ≡ s.file ++ more
    pub behind : read_resume_offset root (length body) s.sidecar ≤ s.synced
    pub within : s.synced ≤ length s.file

  pub Writing-Verified : (s : Output) (more : Bytes) → Writing s more → Verified root body s
  Writing-Verified s more h =
      let o = read_resume_offset root (length body) s.sidecar in
      (
        h.behind,
        h.within,
        sym (ap (take o) h.prefix ∙ take-short o s.file more (omega (arith, h.behind, h.within))),
      )

  written_le : (s : Output) (more : Bytes) → Writing s more → length s.file ≤ length body
  written_le s more h = omega (arith, ap length h.prefix, length-append s.file more)

  committed-offset :
      (n : ℕ)
      → n ≤ length body
      → read_resume_offset root (length body) (some (render (record { root = root; offset = n })))
        ≡ n
  unfolding read_resume_offset
  committed-offset n h =
      ap (directswarm.FetchFile.offset_in root (length body))
        (parse-render (record { root = root; offset = n }) is_root (omega arith))
      ∙ ground (arith, bytes_beq_iff root root)

  -- A sidecar that was cut off does not go beyond its offset.
  cut-offset :
      (n k : ℕ)
      → n ≤ length body
      → read_resume_offset root
          (length body)
          (some (take k (render (record { root = root; offset = n }))))
        ≤ n
  unfolding read_resume_offset
  cut-offset n k h =
      go (parse (take k (render (record { root = root; offset = n }))))
        (parse-take (record { root = root; offset = n }) k is_root (omega arith))
    where
      go :
          (o : Option ResumeState)
          → Below n o
          → directswarm.FetchFile.offset_in root (length body) o ≤ n
      go none b = omega arith
      go (some s) b = ground arith

  pub committed-Writing :
      (s : Output) (more : Bytes) (c : Commit) (n : ℕ)
      → n ≡ length s.file
      → s.synced ≡ length s.file
      → Writing s more
      → Writing (committed root n c s).0 more
  committed-Writing s more done n e all h = record {
    prefix = h.prefix;
    behind = omega (arith, e, all, committed-offset n (omega (arith, e, written_le s more h)));
    within = h.within;
  }
  committed-Writing s more kept n e all h = h
  committed-Writing s more (cut k) n e all h = record {
    prefix = h.prefix;
    behind = omega (arith, e, all, cut-offset n k (omega (arith, e, written_le s more h)));
    within = h.within;
  }

  pub committed-file : (s : Output) (c : Commit) (n : ℕ) → (committed root n c s).0.file ≡ s.file
  committed-file s done n = refl
  committed-file s kept n = refl
  committed-file s (cut k) n = refl

  -- A sync that fails keeps what was on the disk before.
  pub sync_data-Writing :
      (y : Sync) (s : Output) (more : Bytes)
      → Writing s more
      → (left : Bytes) × Writing (sync_data y s).0 left
        × ((sync_data y s).1 ≡ true
            → ((sync_data y s).0.file ≡ s.file)
              × ((sync_data y s).0.synced ≡ length s.file)
              × (left ≡ more))
  unfolding sync_data
  sync_data-Writing synced s more h = (
    more,
    record { prefix = h.prefix; behind = omega (arith, h.behind, h.within); within = omega arith },
    λ e. (refl, refl, refl),
  )
  sync_data-Writing (lost n) s more h =
      let m = max n s.synced in
      (
        drop m s.file ++ more,
        record {
          prefix =
              h.prefix
              ∙ ap (λ t. t ++ more) (sym (take-drop m s.file))
              ∙ append_assoc (take m s.file) (drop m s.file) more;
          behind = h.behind;
          within = omega (arith, h.within, length-take m s.file);
        },
        λ e. absurd (cc),
      )
