-- ===== src/ChunkStore/Refines.antt =====
-- The write-once map from addresses to chunks that a store stands for.
use directswarm.Base.{
  ℕ, ◌+◌, ◌≤◌, ◌≡◌, refl, ap, ◌∙◌, Bool, true, false, [], ◌∷◌, Option, none, some, ltb, arith,
  if◌then◌else◌, length, lookup, insert, bytes_eq, bytes_beq, bytes_beq_iff, lookup-insert,
  Distinct, All, u32_max, Bool-cases, inl, inr,
}
use mathlib.Core.Path.{subst}
use directswarm.Swarm.{SwarmAddress, IsAddress}
use directswarm.Wire.{Bytes}
use directswarm.Hex.{HexCrate}
use directswarm.ChunkStore.{Index, Store, Error, slice, write_at, flush_locked, read_at, get_chunk}
use directswarm.ChunkStore.Slices.{slice-write_at, length-write_at}

-- An entry of an address that ends before the limit, in a length of 32 bits.
abbrev pub IsEntry : ℕ → SwarmAddress × (ℕ × ℕ) → Type 0
IsEntry limit (addr, (offset, len)) = IsAddress addr × (offset + len ≤ limit) × (len ≤ u32_max)

pub record IsSound (s : Store) : Type 0 where
  pub entries : All (IsEntry s.end_of_data) s.index
  pub distinct : Distinct s.index
  pub within : s.end_of_data ≤ length s.dat

pub lookup-IsEntry :
    (limit : ℕ) (index : Index) (addr : SwarmAddress) (offset len : ℕ)
    → All (IsEntry limit) index
    → lookup addr index ≡ some (offset, len)
    → offset + len ≤ limit
unfolding lookup
lookup-IsEntry limit [] addr offset len h e = absurd (cc)
lookup-IsEntry limit ((a, (o, l)) ∷ index) addr offset len (he, h) e =
    elim (Bool-cases (bytes_beq a addr)) [
      | inl same ↦ ground arith
      | inr other ↦ lookup-IsEntry limit index addr offset len h (ground arith)
    ]

-- A longer file with the same bytes in front reads the same.
read-same :
    (s : Store) (dat' : Bytes) (addr : SwarmAddress)
    → IsSound s
    → length s.dat ≤ length dat'
    → ((offset n : ℕ) → offset + n ≤ s.end_of_data → slice offset n dat' ≡ slice offset n s.dat)
    → read_at dat' (lookup addr s.index) ≡ read_at s.dat (lookup addr s.index)
read-same s dat' addr h longer same = go (lookup addr s.index) refl
  where
    go : (o : Option (ℕ × ℕ)) → lookup addr s.index ≡ o → read_at dat' o ≡ read_at s.dat o
    go none e = refl
    go (some (offset, len)) e =
        let ends = lookup-IsEntry s.end_of_data s.index addr offset len h.entries e in
        let fits = h.within in
        let in_new : ltb (length dat') (offset + len) ≡ false = ground arith in
        let in_old : ltb (length s.dat) (offset + len) ≡ false = ground arith in
        rw (in_new, in_old) (ap some (same offset len ends))

insert-IsEntry :
    (limit : ℕ) (e : SwarmAddress × (ℕ × ℕ)) (index : Index)
    → IsEntry limit e
    → All (IsEntry limit) index
    → All (IsEntry limit) (insert e.0 e.1 index)
unfolding insert
insert-IsEntry limit e [] he h = (he, tt)
insert-IsEntry limit e ((a, span) ∷ index) he (ha, h) = elim (Bool-cases (bytes_beq a e.0)) [
  | inl same ↦ rw same (he, h)
  | inr other ↦ rw other (ha, insert-IsEntry limit e index he h)
]

pub weaken-IsEntry :
    (low high : ℕ) (index : Index) → low ≤ high → All (IsEntry low) index → All (IsEntry high) index
weaken-IsEntry low high [] le h = tt
weaken-IsEntry low high ((a, (offset, len)) ∷ index) le ((ha, ends, small), h) =
    ((ha, omega arith, small), weaken-IsEntry low high index le h)

insert-Distinct :
    (addr : SwarmAddress) (span : ℕ × ℕ) (index : Index)
    → Distinct index
    → Distinct (insert addr span index)
unfolding insert lookup
insert-Distinct addr span [] h = (refl, tt)
insert-Distinct addr span ((a, old) ∷ index) (fresh, h) = elim (Bool-cases (bytes_beq a addr)) [
  | inl same ↦
      let e = (bytes_beq_iff a addr).0 same in
      rw same (subst (λ x. lookup x index ≡ none) e fresh, h)
  | inr other ↦ rw other (
    lookup-insert addr a span index
        ∙ ground (arith, bytes_beq_iff a addr, bytes_beq_iff addr a, fresh),
    insert-Distinct addr span index h,
  )
]

-- What a write-once map from addresses to chunks does.
abbrev pub put_once :
    SwarmAddress → Bytes → (SwarmAddress → Option Bytes) → SwarmAddress → Option Bytes
put_once addr wire chunks k =
    if bytes_beq addr k
    then elim (chunks addr) [ none ↦ some wire | some old ↦ some old ]
    else chunks k

-- The step that a call made, seen from outside: a failed one is none.
abbrev pub put_result :
    Option Error
    → SwarmAddress
    → Bytes
    → (SwarmAddress → Option Bytes)
    → SwarmAddress
    → Option Bytes
put_result none addr wire chunks k = put_once addr wire chunks k
put_result (some e) addr wire chunks k = chunks k

-- A write behind the end of the data changes no chunk that can be read.
pub written_lem :
    (s : Store) (bytes : Bytes)
    → IsSound s
    → IsSound (record s { dat = write_at s.end_of_data bytes s.dat })
      × ((k : SwarmAddress)
          → get_chunk (record s { dat = write_at s.end_of_data bytes s.dat }) k ≡ get_chunk s k)
unfolding get_chunk
written_lem s bytes h =
    let (reaches, longer) = length-write_at s.end_of_data bytes s.dat h.within in
    let fits = h.within in
    (
      record { entries = h.entries; distinct = h.distinct; within = omega arith },
      λ k.
          read-same s (write_at s.end_of_data bytes s.dat) k h longer
            (slice-write_at s.end_of_data bytes s.dat h.within),
    )

-- The state after a chunk's entry is added, before any flush.
abbrev pub indexed : SwarmAddress → ℕ → Store → Store
indexed addr len s = record s {
  end_of_data = s.end_of_data + len;
  index = insert addr (s.end_of_data, len) s.index;
  dirty = s.dirty + 1;
}

pub indexed-IsSound :
    (addr : SwarmAddress) (len : ℕ) (s : Store)
    → IsAddress addr
    → len ≤ u32_max
    → s.end_of_data + len ≤ length s.dat
    → IsSound s
    → IsSound (indexed addr len s)
indexed-IsSound addr len s ha small reaches h = record {
  entries =
      insert-IsEntry (s.end_of_data + len) (addr, (s.end_of_data, len)) s.index
        (ha, omega arith, small)
        (weaken-IsEntry s.end_of_data (s.end_of_data + len) s.index (omega arith) h.entries);
  distinct = insert-Distinct addr (s.end_of_data, len) s.index h.distinct;
  within = reaches;
}

pub get_chunk-indexed :
    (addr : SwarmAddress) (wire : Bytes) (s : Store)
    → s.end_of_data + length wire ≤ length s.dat
    → slice s.end_of_data (length wire) s.dat ≡ wire
    → (k : SwarmAddress)
    → get_chunk (indexed addr (length wire) s) k
      ≡ (if bytes_beq addr k then some wire else get_chunk s k)
unfolding get_chunk
get_chunk-indexed addr wire s reaches same k =
    let in_file : ltb (length s.dat) (s.end_of_data + length wire) ≡ false = ground arith in
    ap (read_at s.dat) (lookup-insert addr k (s.end_of_data, length wire) s.index)
    ∙ elim (Bool-cases (bytes_beq addr k)) [
      | inl same_key ↦ rw (same_key, in_file) (ap some same)
      | inr other_key ↦ rw other_key refl
    ]

pub flush_locked-IsSound :
    (hex : HexCrate) (syncs : Bool) (s : Store) → IsSound s → IsSound (flush_locked hex syncs s).0
unfolding flush_locked
flush_locked-IsSound hex true s h = record {
  entries = h.entries;
  distinct = h.distinct;
  within = h.within;
}
flush_locked-IsSound hex false s h = h

pub get_chunk-flush_locked :
    (hex : HexCrate) (syncs : Bool) (s : Store) (k : SwarmAddress)
    → get_chunk (flush_locked hex syncs s).0 k ≡ get_chunk s k
unfolding flush_locked get_chunk
get_chunk-flush_locked hex true s k = refl
get_chunk-flush_locked hex false s k = refl
