-- ===== src/FetchFile.antt =====
-- `fetch_to_file` of rust/ds-net/src/fetch.rs: the file behind a root, written in order and resumed
-- from its sidecar. The joiner and the decoder of a span are another package's and are arguments.
pub mod Resumes
pub mod Consumer
pub mod Whole
mod Tests
use directswarm.Base.{
  ℕ, ◌+◌, ◌-◌, ◌*◌, ◌^◌, ◌≤◌, min, max, Bool, true, false, not, ◌&&◌, List, [], ◌∷◌, ◌++◌, Option,
  none, some, ltb, if◌then◌else◌, length, take, replicate, bytes_beq,
}
use directswarm.Base.Results.{Result, ok, err}
use directswarm.Swarm.{SwarmAddress}
use directswarm.Wire.{Bytes}
use directswarm.ChunkStore.{Write, whole, torn}
use directswarm.Resume.{ResumeState, render, parse}

abbrev pub commit_interval : ℕ
commit_interval = 8 * 2 ^ 20

pub data FetchError : Type 0 where
  root_failed : FetchError
  malformed_root : ℕ → FetchError
  join_failed : FetchError
  io_failed : FetchError

pub record FetchOutcome : Type 0 where
  pub total_span : ℕ
  pub bytes_written : ℕ
  pub resumed_from : ℕ

-- The output file, how many of its first bytes the last `sync_data` covers, and its sidecar.
pub record Output : Type 0 where
  pub file : Bytes
  pub synced : ℕ
  pub sidecar : Option (List ℕ)

-- What becomes of a write of the sidecar: it is written, or it fails before the old one is cut off, or
-- when only the first bytes of the new one are written.
pub data Commit : Type 0 where
  done : Commit
  kept : Commit
  cut : ℕ → Commit

-- What becomes of `flush` and `sync_data`: all is on the disk, or one of them fails, and what was
-- not synced before may be lost from a place on.
pub data Sync : Type 0 where
  synced : Sync
  lost : ℕ → Sync

-- What the disk does, by the offset at which it is asked, and at the end.
pub record Disk : Type 0 where
  pub opens : Bool
  pub writes : ℕ → Write
  pub syncs : ℕ → Sync
  pub commits : ℕ → Commit
  pub last_sync : Sync
  pub last_commit : Commit
  pub removes : Bool

abbrev pub offset_in : SwarmAddress → ℕ → Option ResumeState → ℕ
offset_in root total none = 0
offset_in root total (some s) =
    if bytes_beq s.root root && not (ltb total s.offset) then s.offset else 0

unfoldable pub read_resume_offset : SwarmAddress → ℕ → Option (List ℕ) → ℕ
read_resume_offset root total none = 0
read_resume_offset root total (some text) = offset_in root total (parse text)

abbrev pub committed : SwarmAddress → ℕ → Commit → Output → Output × Bool
committed root offset done s =
    (record s { sidecar = some (render (record { root = root; offset = offset })) }, true)
committed root offset kept s = (s, false)
committed root offset (cut n) s =
    (record s { sidecar = some (take n (render (record { root = root; offset = offset }))) }, false)

abbrev pub commit_sidecar : SwarmAddress → ℕ → Commit → Output → Output × Bool
commit_sidecar root offset c s = committed root offset c s

-- `flush` and `sync_data`.
unfoldable pub sync_data : Sync → Output → Output × Bool
sync_data synced s = (record s { synced = length s.file }, true)
sync_data (lost n) s = (record s { file = take (max n s.synced) s.file }, false)

-- The consumer: none is an error of the disk. The cursor stands at the end of the file.
unfoldable pub consume : Disk → SwarmAddress → ℕ → ℕ → List Bytes → Output → Output × Option ℕ
unfolding sync_data
consume disk root written last [] s =
    let r = sync_data disk.last_sync s in (r.0, if r.1 then some written else none)
consume disk root written last (buf ∷ rest) s = elim (disk.writes written) [
  | torn n ↦ (record s { file = s.file ++ take n buf }, none)
  | whole ↦
      let s1 = record s { file = s.file ++ buf } in
      let now = written + length buf in
      elim (ltb (now - last) commit_interval) [
        | true ↦ consume disk root now last rest s1
        | false ↦ elim (sync_data (disk.syncs now) s1).1 [
          | false ↦ ((sync_data (disk.syncs now) s1).0, none)
          | true ↦
              let s2 = (sync_data (disk.syncs now) s1).0 in
              elim (commit_sidecar root now (disk.commits now) s2).1 [
                | true ↦
                    consume disk root now now rest (commit_sidecar root now (disk.commits now) s2).0
                | false ↦ ((commit_sidecar root now (disk.commits now) s2).0, none)
              ]
        ]
      ]
]

-- `set_len`: cut off, or filled up with zeros.
abbrev pub set_len : ℕ → Output → Output
set_len n s = record s {
  file = take n s.file ++ replicate (n - length s.file) 0;
  synced = min n s.synced;
}

abbrev pub remove_sidecar : Disk → Output → Output
remove_sidecar disk s = if disk.removes then record s { sidecar = none } else s

-- After the join: what was verified is committed if it failed.
unfoldable pub finish :
    Disk → SwarmAddress → ℕ → ℕ → Bool → Output × Option ℕ → Output × Result FetchError FetchOutcome
finish disk root total start joined (s, none) = (s, err io_failed)
finish disk root total start joined (s, some written) =
    if joined
    then (
      remove_sidecar disk s,
      ok (record { total_span = total; bytes_written = written - start; resumed_from = start }),
    )
    else (
      (commit_sidecar root written disk.last_commit s).0,
      err (if (commit_sidecar root written disk.last_commit s).1 then join_failed else io_failed),
    )

-- The join from an offset: the buffers that it delivers, and whether it comes to the end.
abbrev pub Joiner : Type 0
Joiner = ℕ → List Bytes × Bool

unfoldable pub fetch_from :
    Joiner → Disk → SwarmAddress → ℕ → ℕ → Output → Output × Result FetchError FetchOutcome
fetch_from join disk root total start s =
    if ltb 0 total && not (ltb start total)
    then (
      remove_sidecar disk s,
      ok (record { total_span = total; bytes_written = 0; resumed_from = start }),
    )
    else if disk.opens
    then finish disk root total start (join start).1
        (consume disk root start start (join start).0 (set_len start s))
    else (s, err io_failed)

-- The root chunk must have the eight bytes of a span.
unfoldable pub fetch_to_file :
    (Bytes → ℕ)
    → Option Bytes
    → Joiner
    → Disk
    → SwarmAddress
    → Output
    → Output × Result FetchError FetchOutcome
fetch_to_file span root_wire join disk root s = elim root_wire [
  | none ↦ (s, err root_failed)
  | some wire ↦
      if ltb (length wire) 8
      then (s, err (malformed_root (length wire)))
      else fetch_from join disk root (span (take 8 wire))
          (read_resume_offset root (span (take 8 wire)) s.sidecar) s
]
