-- ===== src/ChunkStore.antt =====
-- rust/ds-net/src/store.rs: the append-only chunk store and its index sidecar. The data file is the
-- list of its bytes, and the sidecar a text or nothing.
pub mod Slices
pub mod Put
pub mod Refines
pub mod Reopen
mod Tests
use directswarm.Base.{
  ℕ, zero, suc, ◌+◌, ◌-◌, ◌≤◌, Bool, true, false, List, [], ◌∷◌, ◌++◌, Option, none, some, ltb,
  ◌==◌, not, if◌then◌else◌, ◌>>=◌, length, take, drop, lookup, contains_key, insert, bytes_eq,
  bytes_beq, codes, u32_max, u64_max, wrap_add,
}
use directswarm.Base.Decimal.{decimal, parse_uint}
use directswarm.Base.Split.{lines, split_on}
use directswarm.Swarm.{SwarmAddress}
use directswarm.Wire.{Bytes}
use directswarm.Hex.{HexCrate}

abbrev pub magic : List ℕ
magic = codes "directswarm-chunkstore v1"

abbrev pub flush_every : ℕ
flush_every = 2_048

-- Where the chunk of an address stands: its offset and its length.
abbrev pub Index : Type 0
Index = List (SwarmAddress × (ℕ × ℕ))

pub record Store : Type 0 where
  pub dat : Bytes
  pub end_of_data : ℕ
  pub index : Index
  pub dirty : ℕ
  pub sidecar : Option (List ℕ)

-- What the disk does to one write: all of it, or some of its bytes and then an error.
pub data Write : Type 0 where
  whole : Write
  torn : ℕ → Write

pub data Error : Type 0 where
  write_failed too_large : Error

abbrev pub slice : ℕ → ℕ → Bytes → Bytes
slice offset len bytes = take len (drop offset bytes)

-- `seek` and `write_all` at an offset inside the file or at its end.
unfoldable pub write_at : ℕ → Bytes → Bytes → Bytes
write_at offset bytes file = take offset file ++ (bytes ++ drop (offset + length bytes) file)

-- `hex,offset,length`.
abbrev pub entry_line : HexCrate → SwarmAddress × (ℕ × ℕ) → List ℕ
entry_line hex (addr, (offset, len)) =
    hex.encode addr ++ b',' ∷ (decimal 20 offset ++ b',' ∷ decimal 10 len)

abbrev pub entry_lines : HexCrate → Index → List ℕ
entry_lines hex [] = []
entry_lines hex (e ∷ index) = entry_line hex e ++ b'\n' ∷ entry_lines hex index

unfoldable pub render_index : HexCrate → ℕ → Index → List ℕ
render_index hex end_of_data index =
    magic ++ b'\n' ∷ ((codes "end=" ++ decimal 20 end_of_data) ++ b'\n' ∷ entry_lines hex index)

-- The flag says whether the syncs and the rename succeed; if not, the old sidecar stays.
unfoldable pub flush_locked : HexCrate → Bool → Store → Store × Bool
flush_locked hex syncs s =
    if syncs
    then (record s { dirty = 0; sidecar = some (render_index hex s.end_of_data s.index) }, true)
    else (s, false)

-- The first three parts of a line, whatever follows them.
abbrev pub entry_parts : List (List ℕ) → Option (List ℕ × List ℕ × List ℕ)
entry_parts [] = none
entry_parts (a ∷ []) = none
entry_parts (a ∷ b ∷ []) = none
entry_parts (a ∷ b ∷ c ∷ rest) = some (a, b, c)

unfoldable pub parse_entry : HexCrate → List ℕ → Option (SwarmAddress × (ℕ × ℕ))
parse_entry hex line = do
  (addr_hex, off, len) ← entry_parts (split_on b',' line)
  addr ← hex.decode addr_hex
  offset ← parse_uint u64_max off
  size ← parse_uint u32_max len
  some (addr, (offset, size))

-- An entry past the end of the data is skipped, and so is a line that does not parse.
abbrev pub add_entry : ℕ → Option (SwarmAddress × (ℕ × ℕ)) → Index → Index
add_entry data_end none index = index
add_entry data_end (some (addr, (offset, len))) index =
    if ltb data_end (wrap_add offset len) then index else insert addr (offset, len) index

unfoldable pub load_lines : HexCrate → ℕ → List (List ℕ) → Index → Index
load_lines hex data_end [] index = index
load_lines hex data_end (line ∷ rest) index =
    load_lines hex data_end rest (add_entry data_end (parse_entry hex line) index)

-- The magic, a line that is skipped, and the entries.
abbrev pub load_text : HexCrate → ℕ → List (List ℕ) → Index
load_text hex data_end [] = []
load_text hex data_end (first ∷ []) = []
load_text hex data_end (first ∷ second ∷ rest) =
    if bytes_beq first magic then load_lines hex data_end rest [] else []

unfoldable pub load_index : HexCrate → Option (List ℕ) → ℕ → Index
load_index hex none data_end = []
load_index hex (some text) data_end = load_text hex data_end (lines text)

unfoldable pub open_store : HexCrate → Bytes → Option (List ℕ) → Store
unfolding load_index
open_store hex dat sidecar = record {
  dat = dat;
  end_of_data = length dat;
  index = load_index hex sidecar (length dat);
  dirty = 0;
  sidecar = sidecar;
}

abbrev pub len : Store → ℕ
len s = length s.index

unfoldable pub contains : Store → SwarmAddress → Bool
contains s addr = contains_key addr s.index

-- The part of `put` behind the write.
unfoldable pub put_index : HexCrate → Bool → SwarmAddress → ℕ → Store → Store × Option Error
put_index hex syncs addr len s =
    let s' = record s {
      end_of_data = s.end_of_data + len;
      index = insert addr (s.end_of_data, len) s.index;
      dirty = s.dirty + 1;
    } in
    if ltb u32_max len
    then (s, some too_large)
    else if ltb s'.dirty flush_every
    then (s', none)
    else ((flush_locked hex syncs s').0, none)

unfoldable pub put : HexCrate → Write → Bool → SwarmAddress → Bytes → Store → Store × Option Error
put hex w syncs addr wire s = elim (contains s addr) [
  | true ↦ (s, none)
  | false ↦ elim w [
    | torn n ↦ (record s { dat = write_at s.end_of_data (take n wire) s.dat }, some write_failed)
    | whole ↦
        put_index hex syncs addr (length wire)
          (record s { dat = write_at s.end_of_data wire s.dat })
  ]
]

-- `read_exact` fails past the end of the file.
abbrev pub read_at : Bytes → Option (ℕ × ℕ) → Option Bytes
read_at dat none = none
read_at dat (some (offset, len)) =
    if ltb (length dat) (offset + len) then none else some (slice offset len dat)

-- `get`: both failures are `none`.
unfoldable pub get_chunk : Store → SwarmAddress → Option Bytes
get_chunk s addr = read_at s.dat (lookup addr s.index)
