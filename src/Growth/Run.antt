-- ===== src/Growth/Run.antt =====
-- `probe_growth` of rust/ds-net/src/growth.rs behind the handshake: growth, samples, prepayment,
-- ceiling, final sweep and the peer's own confirmation.
use directswarm.Base.{
  ℕ, ◌-◌, ◌*◌, ◌/◌, max, min, Bool, true, false, not, ◌&&◌, ◌||◌, List, [], ◌∷◌, ◌++◌, Option, none,
  some, ltb, ◌==◌, if◌then◌else◌, ◌>>=◌, take, u32_max,
}
use directswarm.Pacer.{from_millis}
use directswarm.Cheque.{Peer}
use directswarm.Growth.{Terms, Conn, threshold, emit, prepay}
use directswarm.Growth.Phase.{
  PhaseMode, growth, ceiling, PhaseStats, no_stats, At, ended, Phase, begin_phase, Event, run,
  seconds,
}
use directswarm.Growth.Sample.{Sample, lambda_sample}

pub record GrowthOptions : Type 0 where
  pub growth_secs : ℕ
  pub ceiling_secs : ℕ
  pub lambda_samples : ℕ
  pub prepay_units : ℕ

-- What the pricing stream and the connection's flag hold when a part begins.
pub record World : Type 0 where
  pub alive : Bool
  pub announced : Option ℕ

abbrev pub observe : World → Conn → Conn
observe w c = record c { alive = c.alive && w.alive; announced = w.announced }

-- A cheque's stream, and what is known when it begins.
pub record Attempt : Type 0 where
  pub world : World
  pub peer : Peer
  pub now : ℕ

-- All that the run meets, in order.
pub record Script : Type 0 where
  pub growth_at : ℕ
  pub growth_events : List Event
  pub samples : List (World × Sample)
  pub prepayment : Attempt
  pub ceiling_at : ℕ
  pub ceiling_events : List Event
  pub sweeps : List Attempt
  -- Whether the peer is there at the end, and the answer to the last probe.
  pub still_alive : Bool
  pub confirmation : Option ℕ

pub record Progress : Type 0 where
  pub conn : Conn
  pub cycle_idx : ℕ
  pub spend_capped : Bool
  pub lambda_ms : List (Option ℕ)
  pub growth_stats : PhaseStats
  pub ceiling_stats : Option PhaseStats

abbrev pub is_ended : At → Bool
is_ended ended = true
is_ended other = false

-- A phase whose events do not bring it to its end is still running.
unfoldable pub whole_phase : Terms → PhaseMode → ℕ → ℕ → List Event → Progress → Option Phase
whole_phase t mode wall_cap now events s =
    let p = run t mode wall_cap events (begin_phase s.conn s.cycle_idx now) in
    if is_ended p.at then some p else none

abbrev pub after_phase : Phase → Progress → Progress
after_phase p s = record s {
  conn = p.conn;
  cycle_idx = p.cycle_idx;
  spend_capped = s.spend_capped || p.spend_capped;
}

unfoldable pub grow : Terms → GrowthOptions → Script → Progress → Option Progress
grow t o x s =
    if ltb 0 o.growth_secs
    then (do
      p ← whole_phase t growth (seconds o.growth_secs) x.growth_at x.growth_events s
      some (record (after_phase p s) { growth_stats = p.stats }))
    else some s

abbrev pub sample_step : Terms → Sample → Progress → Progress
sample_step t x s =
    let ((c, cycle_idx), latency) = lambda_sample t x s.conn s.cycle_idx in
    record s { conn = c; cycle_idx = cycle_idx; lambda_ms = s.lambda_ms ++ latency ∷ [] }

unfoldable pub sample_all : Terms → List (World × Sample) → Progress → Progress
sample_all t [] s = s
sample_all t ((w, x) ∷ rest) s =
    let s' = record s { conn = observe w s.conn } in
    let later = sample_all t rest (sample_step t x s') in
    if not s'.conn.alive || s'.spend_capped then s' else later

-- `lambda_ms.iter().flatten().max()`.
unfoldable pub slowest : List (Option ℕ) → Option ℕ
slowest [] = none
slowest (none ∷ rest) = slowest rest
slowest (some ms ∷ rest) = elim (slowest rest) [ none ↦ some ms | some other ↦ some (max ms other) ]

abbrev pub lambda_or : ℕ → List (Option ℕ) → ℕ
lambda_or default lambda_ms = elim (slowest lambda_ms) [ none ↦ default | some ms ↦ ms ]

unfoldable pub prepay_once : Terms → GrowthOptions → Attempt → Progress → Progress
prepay_once t o a s =
    let s' = record s { conn = observe a.world s.conn } in
    if ltb 0 o.prepay_units && s'.conn.alive && not s'.spend_capped
    then record s' { conn = (prepay t a.peer o.prepay_units a.now s'.conn).0 }
    else s'

unfoldable pub at_ceiling : Terms → GrowthOptions → Script → Progress → Option Progress
at_ceiling t o x s =
    if ltb 0 o.ceiling_secs && s.conn.alive && not s.spend_capped
    then (do
      p ←
          whole_phase t (ceiling (from_millis (max (lambda_or 3_000 s.lambda_ms) 800 * 3 / 2)))
            (seconds o.ceiling_secs) x.ceiling_at x.ceiling_events s
      some (record (after_phase p s) { ceiling_stats = some p.stats }))
    else some s

-- All that comes before the final sweep.
unfoldable pub phases : Terms → GrowthOptions → Script → Conn → Option Progress
phases t o x c = do
  s ← grow t o x (record {
    conn = c;
    cycle_idx = 0;
    spend_capped = false;
    lambda_ms = [];
    growth_stats = no_stats;
    ceiling_stats = none;
  })
  at_ceiling t o x (prepay_once t o x.prepayment (sample_all t (take o.lambda_samples x.samples) s))

-- `debt.saturating_sub(conn.prepaid)`.
abbrev pub residual : Conn → ℕ
residual c = c.acct.balance - c.prepaid

-- At most three cheques for what is owed.
unfoldable pub sweep : Terms → List Attempt → Conn → Conn
sweep t [] c = c
sweep t (a ∷ rest) c =
    let c' = observe a.world c in
    let later = sweep t rest (emit t a.peer (residual c') a.now c').0 in
    if residual c' == 0 || not c'.alive then c' else later

-- A peer that is still there is asked, and zero means that it sees no debt.
abbrev pub confirmed : Bool → Option ℕ → Option Bool
confirmed false answer = none
confirmed true none = none
confirmed true (some accepted) = some (accepted == 0)

pub record GrowthReport : Type 0 where
  pub progress : Progress
  pub conn : Conn
  pub upgrades_observed : ℕ
  pub residual_zero_confirmed : Option Bool

unfoldable pub probe_growth : Terms → GrowthOptions → Script → Conn → Option GrowthReport
unfolding phases sweep
probe_growth t o x c = do
  s ← phases t o x c
  let c' = sweep t (take 3 x.sweeps) s.conn
  some (record {
    progress = s;
    conn = c';
    upgrades_observed = min ((threshold c' - threshold c) / 450_000) u32_max;
    residual_zero_confirmed = confirmed (c'.alive && x.still_alive) x.confirmation;
  })
