-- ===== src/Growth/Phase.antt =====
-- `run_fetch_phase` of rust/ds-net/src/growth.rs, cut where it awaits and where it looks at what its
-- fetch tasks change. Rate samples and the event log are left out.
use directswarm.Base.{
  ℕ, zero, suc, ◌+◌, ◌-◌, ◌*◌, ◌/◌, ◌%◌, ◌^◌, min, Bool, true, false, not, ◌&&◌, ◌||◌, List, [],
  ◌∷◌, ◌++◌, Option, none, some, ltb, ◌==◌, if◌then◌else◌, wrap_add, length, is_empty,
}
use directswarm.Base.Results.{Result, ok, err}
use directswarm.Mirror.{try_reserve, apply, release}
use directswarm.Pacer.{from_millis}
use directswarm.Cheque.{Peer}
use directswarm.Growth.{
  Terms, Conn, threshold, spend_would_exceed, refreshed, emit, unvalidated_within, chunk_at,
}

abbrev pub seconds : ℕ → ℕ
seconds n = from_millis (n * 1_000)

abbrev pub refresh_min_interval : ℕ
refresh_min_interval = from_millis 1_100

abbrev pub growth_cheque_interval : ℕ
growth_cheque_interval = from_millis 3_000

pub data PhaseMode : Type 0 where
  growth : PhaseMode
  ceiling : (lambda_window : ℕ) → PhaseMode

abbrev pub conn_pipeline_depth : PhaseMode → ℕ → ℕ
conn_pipeline_depth growth configured = min configured 8
conn_pipeline_depth (ceiling lambda_window) configured = configured

-- Milliseconds and bytes of a chunk, or the error.
abbrev pub Fetched : Type 0
Fetched = Result (List ℕ) (ℕ × ℕ)

pub record PhaseStats : Type 0 where
  pub fetches_ok : ℕ
  pub fetches_err : ℕ
  pub bytes : ℕ
  pub latencies_ms : List ℕ
  pub errors : List (List ℕ)

abbrev pub no_stats : PhaseStats
no_stats = record { fetches_ok = 0; fetches_err = 0; bytes = 0; latencies_ms = []; errors = [] }

-- Where the loop stands.
pub data At : Type 0 where
  head : At
  spawning : At
  -- A chunk of that price passed the spend gate.
  reserving : (price : ℕ) → At
  draining : At
  refreshing : At
  settling : At
  emitting : (units : ℕ) → At
  closing : At
  ended : At

pub record Phase : Type 0 where
  pub conn : Conn
  pub cycle_idx : ℕ
  -- The prices of the running tasks, and the results that wait to be joined.
  pub running : List ℕ
  pub joined : List Fetched
  pub started : ℕ
  pub last_threshold : ℕ
  pub last_upgrade : ℕ
  pub stats : PhaseStats
  pub spend_capped : Bool
  pub stopping : Bool
  pub at : At

unfoldable pub begin_phase : Conn → ℕ → ℕ → Phase
begin_phase c cycle_idx now = record {
  conn = c;
  cycle_idx = cycle_idx;
  running = [];
  joined = [];
  started = now;
  last_threshold = threshold c;
  last_upgrade = now;
  stats = no_stats;
  spend_capped = false;
  stopping = false;
  at = head;
}

abbrev pub goto : At → Phase → Phase
goto a p = record p { at = a }

abbrev pub due : Option ℕ → ℕ → ℕ → Bool
due none interval now = true
due (some at) interval now = not (ltb (now - at) interval)

-- The threshold is tracked, an upgrade restarts the plateau's clock.
unfoldable pub track : ℕ → Phase → Phase
track now p =
    if threshold p.conn == p.last_threshold
    then p
    else record p { last_threshold = threshold p.conn; last_upgrade = now }

-- Growth ends without an upgrade for four minutes after the fifth.
abbrev pub plateau : PhaseMode → ℕ → Phase → Bool
plateau (ceiling lambda_window) now p = false
plateau growth now p =
    not (ltb (now - p.started) (seconds 300)) && not (ltb (now - p.last_upgrade) (seconds 240))

unfoldable pub stop_when : PhaseMode → ℕ → ℕ → Phase → Phase
stop_when mode wall_cap now p = record p {
  stopping =
      p.stopping || not (ltb (now - p.started) wall_cap) || plateau mode now p || not p.conn.alive;
}

unfoldable pub begin : PhaseMode → ℕ → ℕ → Phase → Phase
unfolding track stop_when
begin mode wall_cap now p = goto spawning (stop_when mode wall_cap now (track now p))

-- The head of the spawning loop, and the gate on the projected spend.
unfoldable pub spawn_next : Terms → PhaseMode → Phase → Phase
spawn_next t mode p =
    let price = t.price (chunk_at t p.cycle_idx) in
    if not p.stopping
      && ltb (length p.running + length p.joined) (conn_pipeline_depth mode t.pipeline_depth)
    then (if spend_would_exceed t p.conn price
        then goto draining (record p { spend_capped = true; stopping = true })
        else goto (reserving price) p)
    else goto draining p

-- Half the threshold; or what is prepaid and 105 % of the threshold, less what may be validating.
unfoldable pub limit_of : PhaseMode → ℕ → Phase → Conn × ℕ
limit_of growth now p = (p.conn, p.last_threshold / 2)
limit_of (ceiling lambda_window) now p =
    let (c, unvalidated) = unvalidated_within lambda_window now p.conn in
    (c, wrap_add c.prepaid (p.last_threshold * 105 % 2 ^ 64 / 100) - unvalidated)

unfoldable pub reserve_with : ℕ → Conn × ℕ → Phase → Phase
reserve_with price (c, limit) p =
    let (m, granted) = try_reserve c.acct price limit in
    if granted
    then goto spawning (record p {
      conn = record c { acct = m };
      cycle_idx = p.cycle_idx + 1;
      running = p.running ++ price ∷ [];
    })
    else goto draining (record p { conn = c })

-- The results of the finished tasks; the first twenty errors are kept.
unfoldable pub tally : PhaseStats → Fetched → PhaseStats
tally s (ok (ms, bytes)) = record s {
  fetches_ok = wrap_add s.fetches_ok 1;
  bytes = wrap_add s.bytes bytes;
  latencies_ms = s.latencies_ms ++ ms ∷ [];
}
tally s (err text) = record s {
  fetches_err = wrap_add s.fetches_err 1;
  errors = if ltb (length s.errors) 20 then s.errors ++ text ∷ [] else s.errors;
}

unfoldable pub tally_all : PhaseStats → List Fetched → PhaseStats
tally_all s [] = s
tally_all s (r ∷ rest) = tally_all (tally s r) rest

-- Then the refresh cadence; the peer is asked only with unpaid debt.
unfoldable pub drain : ℕ → Phase → Phase
drain now p =
    let p' = record p { joined = []; stats = tally_all p.stats p.joined } in
    if not (due p.conn.last_refresh refresh_min_interval now)
    then goto settling p'
    else if p.conn.acct.balance - p.conn.prepaid == 0
    then goto settling (record p' { conn = record p.conn { last_refresh = some now } })
    else goto refreshing p'

-- Whether a cheque is wanted, and its units.
unfoldable pub wanted : PhaseMode → ℕ → Phase → Bool × ℕ
wanted growth now p = (
  due p.conn.last_cheque growth_cheque_interval now
      && not (ltb p.conn.acct.balance (p.last_threshold / 4)),
  min p.conn.acct.balance (p.last_threshold / 4),
)
wanted (ceiling lambda_window) now p =
    let unpaid = p.conn.acct.balance - p.conn.prepaid in
    (
      due p.conn.last_cheque (from_millis 500) now && not (ltb unpaid (p.last_threshold / 5)),
      unpaid,
    )

unfoldable pub settle : PhaseMode → ℕ → Phase → Phase
unfolding wanted
settle mode now p =
    let (want_cheque, units) = wanted mode now p in
    if want_cheque && p.conn.alive then goto (emitting units) p else goto closing p

unfoldable pub close : Phase → Phase
close p =
    if p.stopping && is_empty p.running && is_empty p.joined then goto ended p else goto head p

-- What the clock, the refresh and the settlement stream give to one step.
pub record Turn : Type 0 where
  pub now : ℕ
  pub reply : Option ℕ
  pub peer : Peer

-- The loop's own next step.
unfoldable pub advance : Terms → PhaseMode → ℕ → Turn → Phase → Phase
advance t mode wall_cap turn p = elim p.at [
  | head ↦ begin mode wall_cap turn.now p
  | spawning ↦ spawn_next t mode p
  | reserving price ↦ reserve_with price (limit_of mode turn.now p) p
  | draining ↦ drain turn.now p
  | refreshing ↦ goto settling (record p { conn = refreshed turn.reply turn.now p.conn })
  | settling ↦ settle mode turn.now p
  | emitting units ↦ goto closing (record p { conn = (emit t turn.peer units turn.now p.conn).0 })
  | closing ↦ close p
  | ended ↦ p
]

-- The task at a place of the list, and the others.
abbrev pub take_at : ℕ → List ℕ → Option (ℕ × List ℕ)
take_at i [] = none
take_at zero (x ∷ xs) = some (x, xs)
take_at (suc i) (x ∷ xs) = elim (take_at i xs) [ none ↦ none | some (y, rest) ↦ some (y, x ∷ rest) ]

-- What a task leaves in the mirror; one that panics leaves its reservation.
pub data Landing : Type 0 where
  served : (ms bytes : ℕ) → Landing
  failed : List ℕ → Landing
  panicked : List ℕ → Landing

abbrev pub land : Landing → ℕ → Conn → Conn
land (served ms bytes) price c = record c { acct = apply c.acct price }
land (failed text) price c = record c { acct = release c.acct price }
land (panicked text) price c = c

abbrev pub fetched : Landing → Fetched
fetched (served ms bytes) = ok (ms, bytes)
fetched (failed text) = err text
fetched (panicked text) = err text

unfoldable pub finish_task : ℕ → Landing → Phase → Phase
finish_task i l p = elim (take_at i p.running) [
  | none ↦ p
  | some (price, rest) ↦ record p {
    conn = land l price p.conn;
    running = rest;
    joined = p.joined ++ fetched l ∷ [];
  }
]

-- What happens next: the loop's own step, the end of a task, a hang-up, an announcement.
pub data Event : Type 0 where
  own : Turn → Event
  task : (i : ℕ) → Landing → Event
  hang_up : Event
  announce : ℕ → Event

unfoldable pub step : Terms → PhaseMode → ℕ → Event → Phase → Phase
step t mode wall_cap (own turn) p = advance t mode wall_cap turn p
step t mode wall_cap (task i l) p = finish_task i l p
step t mode wall_cap hang_up p = record p { conn = record p.conn { alive = false } }
step t mode wall_cap (announce n) p = record p { conn = record p.conn { announced = some n } }

unfoldable pub run : Terms → PhaseMode → ℕ → List Event → Phase → Phase
run t mode wall_cap [] p = p
run t mode wall_cap (e ∷ es) p = run t mode wall_cap es (step t mode wall_cap e p)
