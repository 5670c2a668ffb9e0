-- ===== src/FetchFile/Consumer.antt =====
-- The consumer of `fetch_to_file` in rust/ds-net/src/fetch.rs keeps what `Writing` says.
use mathlib.Core.Path.{subst}
use directswarm.Base.{
  ℕ, ◌+◌, ◌-◌, ◌≤◌, ◌≡◌, refl, ap, sym, ◌∙◌, true, false, List, [], ◌∷◌, ◌++◌, append_assoc, Option,
  none, some, ltb, arith, inl, inr, Bool-cases, length, length-append, take, drop, u64_max,
}
use directswarm.Swarm.{SwarmAddress, IsAddress}
use directswarm.Wire.{Bytes}
use directswarm.ChunkStore.{Write, whole, torn}
use directswarm.ChunkStore.Slices.{take-drop}
use directswarm.FetchFile.{commit_interval, Output, sync_data, Disk, commit_sidecar, consume}
use directswarm.FetchFile.Resumes.{
  flat, Writing, sync_data-Writing, committed-Writing, committed-file,
}

module _ (root : SwarmAddress) (body : Bytes) (is_root : IsAddress root)
    (fits : length body ≤ u64_max) where
  -- After the consumer: what is on the disk, and how much of it is reported.
  abbrev pub Consumed : Bytes → Output × Option ℕ → Type 0
  Consumed tail (s, r) =
      (more : Bytes) × Writing root body is_root fits s more
      × ((n : ℕ) → r ≡ some n → (n ≡ length s.file) × (more ≡ tail) × (s.synced ≡ length s.file))

  module _ (disk : Disk) where
    grown :
        (s : Output) (buf more : Bytes)
        → Writing root body is_root fits s (buf ++ more)
        → Writing root body is_root fits (record s { file = s.file ++ buf }) more
    grown s buf more h = record {
      prefix = h.prefix ∙ sym (append_assoc s.file buf more);
      behind = h.behind;
      within = omega (arith, h.within, length-append s.file buf);
    }

    -- A commit when it is due.
    commit-Consumed :
        (now : ℕ) (rest : List Bytes) (tail : Bytes) (s : Output)
        → now ≡ length s.file
        → Writing root body is_root fits s (flat rest ++ tail)
        → ((last' : ℕ) (s' : Output)
            → now ≡ length s'.file
            → Writing root body is_root fits s' (flat rest ++ tail)
            → Consumed tail (consume disk root now last' rest s'))
        → Consumed tail (elim (sync_data (disk.syncs now) s).1 [
          | false ↦ ((sync_data (disk.syncs now) s).0, none)
          | true ↦
              let s2 = (sync_data (disk.syncs now) s).0 in
              elim (commit_sidecar root now (disk.commits now) s2).1 [
                | true ↦
                    consume disk root now now rest (commit_sidecar root now (disk.commits now) s2).0
                | false ↦ ((commit_sidecar root now (disk.commits now) s2).0, none)
              ]
        ])
    commit-Consumed now rest tail s e h next =
        let s2 = (sync_data (disk.syncs now) s).0 in
        let (left, writing, through) =
          sync_data-Writing root body is_root fits (disk.syncs now) s (flat rest ++ tail) h in
        elim (Bool-cases (sync_data (disk.syncs now) s).1) [
          | inr failed ↦ rw failed (left, writing, λ m r. absurd (cc))
          | inl ok ↦
              let (same, all, rest_left) = through ok in
              let writing2 : Writing root body is_root fits s2 (flat rest ++ tail) =
                subst (Writing root body is_root fits s2) rest_left writing in
              let kept_on =
                committed-Writing root body is_root fits s2 (flat rest ++ tail) (disk.commits now)
                  now (e ∙ ap length (sym same)) (all ∙ ap length (sym same)) writing2 in
              let file = committed-file root body is_root fits s2 (disk.commits now) now in
              elim (Bool-cases (commit_sidecar root now (disk.commits now) s2).1) [
                | inl done_well ↦
                    rw (ok, done_well)
                      (next now (commit_sidecar root now (disk.commits now) s2).0
                        (e ∙ ap length (sym same) ∙ ap length (sym file)) kept_on)
                | inr failed ↦ rw (ok, failed) (flat rest ++ tail, kept_on, λ m r. absurd (cc))
              ]
        ]

    -- One buffer, with what is known of the rest.
    consume-cons :
        (written last : ℕ) (buf : Bytes) (rest : List Bytes) (tail : Bytes) (s : Output)
        → written ≡ length s.file
        → Writing root body is_root fits s (buf ++ (flat rest ++ tail))
        → ((last' : ℕ) (s' : Output)
            → written + length buf ≡ length s'.file
            → Writing root body is_root fits s' (flat rest ++ tail)
            → Consumed tail (consume disk root (written + length buf) last' rest s'))
        → Consumed tail (consume disk root written last (buf ∷ rest) s)
    unfolding consume
    consume-cons written last buf rest tail s e h next = go (disk.writes written) refl
      where
        now : written + length buf ≡ length (s.file ++ buf)
        now = omega (arith, e, length-append s.file buf)

        s1 : Writing root body is_root fits (record s { file = s.file ++ buf }) (flat rest ++ tail)
        s1 = grown s buf (flat rest ++ tail) h

        torn_at :
            (n : ℕ)
            → Writing root body is_root fits s (take n buf ++ (drop n buf ++ (flat rest ++ tail)))
        torn_at n =
            subst (Writing root body is_root fits s)
              (ap (λ b. b ++ (flat rest ++ tail)) (sym (take-drop n buf))
                ∙ append_assoc (take n buf) (drop n buf) (flat rest ++ tail))
              h

        go :
            (w : Write)
            → disk.writes written ≡ w
            → Consumed tail (consume disk root written last (buf ∷ rest) s)
        go (torn n) w =
            rw (w, consume)
              (
                drop n buf ++ (flat rest ++ tail),
                grown s (take n buf) _ (torn_at n),
                λ m r. absurd (cc),
              )
        go whole w = elim (Bool-cases (ltb (written + length buf - last) commit_interval)) [
          | inl early ↦
              rw (w, early, consume) (next last (record s { file = s.file ++ buf }) now s1)
          | inr due ↦
              rw (w, due, consume)
                (commit-Consumed (written + length buf) rest tail
                  (record s { file = s.file ++ buf }) now s1 next)
        ]

    pub consume-Consumed :
        (written last : ℕ) (bufs : List Bytes) (tail : Bytes) (s : Output)
        → written ≡ length s.file
        → Writing root body is_root fits s (flat bufs ++ tail)
        → Consumed tail (consume disk root written last bufs s)
    unfolding consume
    consume-Consumed written last [] tail s e h =
        let (left, writing, through) =
          sync_data-Writing root body is_root fits disk.last_sync s tail h in
        elim (Bool-cases (sync_data disk.last_sync s).1) [
          | inr failed ↦ rw failed (left, writing, λ n r. absurd (cc))
          | inl ok ↦
              let (same, all, rest_left) = through ok in
              rw ok (
                left,
                writing,
                λ n r.
                    (ground (arith, e, ap length same, r), rest_left, all ∙ ap length (sym same)),
              )
        ]
    consume-Consumed written last (buf ∷ rest) tail s e h =
        consume-cons written last buf rest tail s e
          (subst (Writing root body is_root fits s) (append_assoc buf (flat rest) tail) h)
          (λ last' s' e' h'. consume-Consumed (written + length buf) last' rest tail s' e' h')
