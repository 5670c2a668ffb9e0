-- ===== src/Connection/Stop.antt =====
-- The stop of a connection's fetching near the spend cap.
use directswarm.Base.{
  ℕ, zero, suc, ◌≤◌, ◌≡◌, refl, ap, Bool, true, List, [], ◌∷◌, Option, none, some, arith, length,
}
use directswarm.Swarm.{SwarmAddress}
use directswarm.Wire.{Bytes}
use directswarm.Hex.{HexCrate}
use directswarm.ChunkStore.{Write}
use directswarm.Connection.{
  Shared, Conn, At, head, hung_up, admitting, reaping, refreshing, settling, prepaying, emitting,
  closing, returned, Drive, Turn, State, tasks_len,
}
use directswarm.Connection.Loop.{
  begin, give_up, admit_next, reap, finish_refresh, settle, prepaid_result, sweep_failed,
  debt_result, close, advance,
}
use directswarm.Connection.Events.{
  take_at, landed, finish_task, Event, own, task, hang_up, announce, others, step, run,
}

-- The fetching is stopped: the mark is set, and the loop is not in a round of admissions that began
-- before it was.
pub record IsStopped (d : Drive) : Type 0 where
  pub marked : d.spend_stop ≡ true
  pub not_admitting : (halted : Bool) → d.at ≡ admitting halted → halted ≡ true

-- Stopped it stays, and there are no more tasks than there were.
abbrev pub StaysStopped : Drive → Drive → Type 0
StaysStopped d d' = IsStopped d' × (tasks_len d' ≤ tasks_len d)

advance-StaysStopped :
    (c : Conn) (t : Turn) (g : Shared) (d : Drive)
    → IsStopped d
    → StaysStopped d (advance c t (g, d)).1
unfolding advance
advance-StaysStopped c t g d h = go d.at refl
  where
    go : (x : At) → d.at ≡ x → StaysStopped d (advance c t (g, d)).1
    go head e = unfold begin in rw (e, advance) (ground arith)
    go hung_up e = unfold give_up in rw (e, advance) (ground arith)
    go (admitting halted) e =
        unfold admit_next in
        let on : halted ≡ true = h.not_admitting halted e in rw (e, advance) (ground arith)
    go (reaping halted) e = unfold reap in rw (e, advance) (ground arith)
    go (refreshing halted) e = unfold finish_refresh in rw (e, advance) (ground arith)
    go (settling halted) e = unfold settle in rw (e, advance) (ground arith)
    go (prepaying halted units) e = unfold prepaid_result in rw (e, advance) (ground arith)
    go (emitting halted units) e = unfold debt_result sweep_failed in rw (e, advance) (ground arith)
    go (closing halted) e = unfold close in rw (e, advance) (ground arith)
    go (returned residual) e = rw (e, advance) (h, omega arith)

-- A task that is taken out leaves one less.
abbrev Leaves :
    List (SwarmAddress × ℕ) → Option ((SwarmAddress × ℕ) × List (SwarmAddress × ℕ)) → Type 0
Leaves xs none = Unit
Leaves xs (some (t, rest)) = length xs ≡ suc (length rest)

take_at-Leaves : (i : ℕ) (xs : List (SwarmAddress × ℕ)) → Leaves xs (take_at i xs)
take_at-Leaves i [] = tt
take_at-Leaves zero (x ∷ xs) = refl
take_at-Leaves (suc i) (x ∷ xs) = go (take_at i xs) (take_at-Leaves i xs)
  where
    go :
        (o : Option ((SwarmAddress × ℕ) × List (SwarmAddress × ℕ)))
        → Leaves xs o
        → Leaves (x ∷ xs) (elim o [ none ↦ none | some (y, rest) ↦ some (y, x ∷ rest) ])
    go none t = tt
    go (some (y, rest)) t = ap suc t

finish_task-StaysStopped :
    (hex : HexCrate) (i : ℕ) (chunk : Option Bytes) (w : Write) (syncs : Bool) (g : Shared)
    (d : Drive)
    → IsStopped d
    → StaysStopped d (finish_task hex i chunk w syncs (g, d)).1
unfolding finish_task landed
finish_task-StaysStopped hex i chunk w syncs g d h =
    go (take_at i d.running) refl (take_at-Leaves i d.running) chunk
  where
    go :
        (o : Option ((SwarmAddress × ℕ) × List (SwarmAddress × ℕ)))
        → take_at i d.running ≡ o
        → Leaves d.running o
        → (chunk : Option Bytes) → StaysStopped d (finish_task hex i chunk w syncs (g, d)).1
    go none e l chunk = rw (e, finish_task) (h, omega arith)
    go (some ((addr, price), rest)) e one_less none = rw (e, finish_task) (ground arith)
    go (some ((addr, price), rest)) e one_less (some bytes) = rw (e, finish_task) (ground arith)

step-StaysStopped :
    (hex : HexCrate) (c : Conn) (e : Event) (s : State)
    → IsStopped s.1
    → StaysStopped s.1 (step hex c e s).1
unfolding step
step-StaysStopped hex c (own t) (g, d) h = advance-StaysStopped c t g d h
step-StaysStopped hex c (task i chunk w syncs) (g, d) h =
    finish_task-StaysStopped hex i chunk w syncs g d h
step-StaysStopped hex c hang_up (g, d) h = ground arith
step-StaysStopped hex c (announce n) (g, d) h = ground arith
step-StaysStopped hex c (others g') (g, d) h = (h, omega arith)

-- A connection whose fetching was stopped near the spend cap stays stopped, and never has more
-- tasks than it then had, after any sequence of events and whatever other connections do to the
-- shared state.
pub run-StaysStopped :
    (hex : HexCrate) (c : Conn) (es : List Event) (s : State)
    → IsStopped s.1
    → StaysStopped s.1 (run hex c es s).1
unfolding run
run-StaysStopped hex c [] s h = (h, omega arith)
run-StaysStopped hex c (e ∷ es) s h =
    let (once, fewer) = step-StaysStopped hex c e s h in
    let (still, least) = run-StaysStopped hex c es (step hex c e s) once in (still, omega arith)
