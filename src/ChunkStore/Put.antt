-- ===== src/ChunkStore/Put.antt =====
-- `put` on each of its ways: the chunk is there, the write fails, the chunk is too long, it is
-- stored.
use directswarm.Base.{
  ◌+◌, ◌≤◌, ◌≡◌, refl, ◌∙◌, true, false, Option, none, some, ltb, arith, length, take, contains_key,
  lookup, bytes_eq, bytes_beq, bytes_beq_iff, sym, ap, if◌then◌else◌, u32_max, Bool, Bool-cases,
  inl, inr, ℕ,
}
use directswarm.Swarm.{SwarmAddress, IsAddress}
use directswarm.Wire.{Bytes}
use directswarm.Hex.{HexCrate}
use directswarm.ChunkStore.{
  Store, Write, whole, torn, Error, write_at, flush_every, contains, put_index, put, read_at,
  get_chunk,
}
use directswarm.ChunkStore.Slices.{slice-write_at_same, length-write_at}
use directswarm.ChunkStore.Refines.{
  IsSound, put_once, put_result, lookup-IsEntry, written_lem, indexed, indexed-IsSound,
  get_chunk-indexed, flush_locked-IsSound, get_chunk-flush_locked,
}

-- A store that keeps its invariant and shows the chunks that the result names.
abbrev pub Refined : SwarmAddress → Bytes → Store → Store × Option Error → Type 0
Refined addr wire s (s', result) =
    IsSound s' × ((k : SwarmAddress) → get_chunk s' k ≡ put_result result addr wire (get_chunk s) k)

-- In a sound store an address is in the index exactly if its chunk can be read.
get_chunk-contains :
    (s : Store) (addr : SwarmAddress)
    → IsSound s
    → contains s addr ≡ elim (get_chunk s addr) [ none ↦ false | some wire ↦ true ]
unfolding contains contains_key get_chunk
get_chunk-contains s addr h = go (lookup addr s.index) refl
  where
    go :
        (o : Option (ℕ × ℕ))
        → lookup addr s.index ≡ o
        → (elim o [ none ↦ false | some span ↦ true ])
          ≡ elim (read_at s.dat o) [ none ↦ false | some wire ↦ true ]
    go none e = refl
    go (some (offset, len)) e =
        let ends = lookup-IsEntry s.end_of_data s.index addr offset len h.entries e in
        let fits = h.within in
        let in_file : ltb (length s.dat) (offset + len) ≡ false = ground arith in rw in_file refl

put_once-present :
    (chunks : SwarmAddress → Option Bytes) (addr : SwarmAddress) (wire : Bytes) (k : SwarmAddress)
    → (elim (chunks addr) [ none ↦ false | some old ↦ true ]) ≡ true
    → chunks k ≡ put_once addr wire chunks k
put_once-present chunks addr wire k h = elim (Bool-cases (bytes_beq addr k)) [
  | inl same ↦ rw same (ap chunks (sym ((bytes_beq_iff addr k).0 same)) ∙ held (chunks addr) h)
  | inr other ↦ rw other refl
]
  where
    held :
        (o : Option Bytes)
        → (elim o [ none ↦ false | some old ↦ true ]) ≡ true
        → o ≡ elim o [ none ↦ some wire | some old ↦ some old ]
    held none e = absurd (ground arith)
    held (some old) e = refl

put_once-absent :
    (chunks : SwarmAddress → Option Bytes) (addr : SwarmAddress) (wire : Bytes) (k : SwarmAddress)
    → (elim (chunks addr) [ none ↦ false | some old ↦ true ]) ≡ false
    → (if bytes_beq addr k then some wire else chunks k) ≡ put_once addr wire chunks k
put_once-absent chunks addr wire k h = elim (Bool-cases (bytes_beq addr k)) [
  | inl same ↦ rw same (free (chunks addr) h)
  | inr other ↦ rw other refl
]
  where
    free :
        (o : Option Bytes)
        → (elim o [ none ↦ false | some old ↦ true ]) ≡ false
        → some wire ≡ elim o [ none ↦ some wire | some old ↦ some old ]
    free none e = refl
    free (some old) e = absurd (ground arith)

put_index-Refined :
    (hex : HexCrate) (syncs : Bool) (addr : SwarmAddress) (wire : Bytes) (s : Store)
    → IsAddress addr
    → IsSound s
    → contains s addr ≡ false
    → Refined addr wire s (
        put_index hex syncs addr
          (length wire)
          (record s { dat = write_at s.end_of_data wire s.dat }))
unfolding put_index
put_index-Refined hex syncs addr wire s ha h fresh =
    let (sound, reads) = written_lem s wire h in
    let (reaches, longer) = length-write_at s.end_of_data wire s.dat h.within in
    let back = slice-write_at_same s.end_of_data wire s.dat h.within in
    let s1 = record s { dat = write_at s.end_of_data wire s.dat } in
    let absent = sym (get_chunk-contains s addr h) ∙ fresh in
    elim (Bool-cases (ltb u32_max (length wire))) [
      | inl long ↦ rw long (sound, reads)
      | inr fits ↦
          let small : length wire ≤ u32_max = ground arith in
          let sound' = indexed-IsSound addr (length wire) s1 ha small reaches sound in
          let reads' : (k : SwarmAddress)
              → get_chunk (indexed addr (length wire) s1) k ≡ put_once addr wire (get_chunk s) k =
            λ k.
              get_chunk-indexed addr wire s1 reaches back k
              ∙ ap (λ r. if bytes_beq addr k then some wire else r) (reads k)
              ∙ put_once-absent (get_chunk s) addr wire k absent in
          elim (Bool-cases (ltb (s.dirty + 1) flush_every)) [
            | inl later ↦ rw (fits, later) (sound', reads')
            | inr due ↦
                rw (fits, due)
                  (
                    flush_locked-IsSound hex syncs (indexed addr (length wire) s1) sound',
                    λ k.
                        get_chunk-flush_locked hex syncs (indexed addr (length wire) s1) k
                        ∙ reads' k,
                  )
          ]
    ]

-- On a sound store and for an address of 32 bytes, `put` leaves a sound store, whatever the disk
-- does to its write and to a flush it may make, and the chunks that can be read afterwards are
-- those of a write-once map: when `put` returns without an error the chunk is added under its
-- address unless one was there, and no other chunk changes; when it returns an error no chunk
-- changes.
pub put-Refined :
    (hex : HexCrate) (w : Write) (syncs : Bool) (addr : SwarmAddress) (wire : Bytes) (s : Store)
    → IsAddress addr
    → IsSound s
    → Refined addr wire s (put hex w syncs addr wire s)
unfolding put
put-Refined hex w syncs addr wire s ha h = elim (Bool-cases (contains s addr)) [
  | inl there ↦
      rw (there, put)
        (
          h,
          λ k.
              put_once-present (get_chunk s) addr wire k
                (sym (get_chunk-contains s addr h) ∙ there),
        )
  | inr fresh ↦ go w fresh
]
  where
    go : (w : Write) → contains s addr ≡ false → Refined addr wire s (put hex w syncs addr wire s)
    go (torn n) fresh = rw (fresh, put) (written_lem s (take n wire) h)
    go whole fresh = rw (fresh, put) (put_index-Refined hex syncs addr wire s ha h fresh)
