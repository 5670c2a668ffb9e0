-- ===== src/Ledger/Persister.antt =====
-- The persister loop of `FastLedger::open`, `record_issued` and `flush` in
-- rust/ds-net/src/ledger.rs,
-- as steps over the map, the dirty mark and the file. The file is the map that it was written from.
pub mod Durable
mod Tests
use directswarm.Base.{ℕ, Bool, true, false, List, [], ◌∷◌, if◌then◌else◌}
use directswarm.Ledger.{Ledger, record_issued}

abbrev pub Map : Type 0
Map = List (List ℕ × ℕ)

-- The loop sleeps, has taken the dirty mark, or writes a snapshot.
pub data Phase : Type 0 where
  asleep awake : Phase
  writing : Map → Phase

pub record Store : Type 0 where
  pub ledger : Ledger
  pub phase : Phase
  pub file : Map

-- A cheque is recorded; the loop wakes, takes its snapshot, and its write ends; a flush ends.
pub data Event : Type 0 where
  issues : List ℕ → ℕ → Event
  wakes snapshots : Event
  writes : Bool → Event
  flushes : Bool → Event

-- `open` on a file that is there.
unfoldable pub open_store : Map → Store
open_store m = record { ledger = record { map = m; dirty = false }; phase = asleep; file = m }

abbrev pub marked : Ledger → Bool → Ledger
marked l d = record l { dirty = d }

-- `dirty.swap(false)`, and a snapshot only if it was set.
abbrev pub swap_dirty : Bool → Store → Store
swap_dirty true s = record s { ledger = marked s.ledger false; phase = awake }
swap_dirty false s = s

-- The loop, by what it is doing.
unfoldable pub wake : Phase → Store → Store
wake asleep s = swap_dirty s.ledger.dirty s
wake awake s = s
wake (writing m) s = s

unfoldable pub snapshot : Phase → Store → Store
snapshot asleep s = s
snapshot awake s = record s { phase = writing s.ledger.map }
snapshot (writing m) s = s

unfoldable pub finish_write : Bool → Phase → Store → Store
finish_write success asleep s = s
finish_write success awake s = s
finish_write true (writing m) s = record s { phase = asleep; file = m }
finish_write false (writing m) s = record s { ledger = marked s.ledger true; phase = asleep }

unfoldable pub flush : Bool → Store → Store
flush true s = record s { ledger = marked s.ledger false; file = s.ledger.map }
flush false s = record s { ledger = marked s.ledger false }

unfoldable pub advance : Event → Store → Store
advance (issues who n) s = record s { ledger = record_issued s.ledger who n }
advance wakes s = wake s.phase s
advance snapshots s = snapshot s.phase s
advance (writes success) s = finish_write success s.phase s
advance (flushes success) s = flush success s

abbrev pub advance_all : List Event → Store → Store
advance_all [] s = s
advance_all (e ∷ events) s = advance_all events (advance e s)
