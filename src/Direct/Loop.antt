-- ===== src/Direct/Loop.antt =====
-- The settlement's steps, each up to where it awaits or reads what others change, and what happens
-- between them.
use directswarm.Base.{
  ℕ, zero, suc, ◌+◌, ◌-◌, ◌%◌, ◌^◌, Bool, true, false, not, ◌&&◌, ◌||◌, List, [], ◌∷◌, ◌++◌, Option,
  none, some, ltb, ◌==◌, if◌then◌else◌, length, sat_add, wrap_add, wrap_sub,
}
use directswarm.Base.Results.{Result, ok, err}
use directswarm.Swarm.{SwarmAddress}
use directswarm.Cheque.{Error, Peer, Outcome}
use directswarm.Direct.{
  Accounting, Terms, Stage, sleeping, credited, swept, hung_up, unpaid, At, waiting, woken,
  refreshing, deciding, checking, lost, weighing, emitting, measuring, ended, Probe,
  emit_cheque_at_rate, refresh_min_interval,
}

-- What the clock, the fetches, the refresh and the settlement stream give to one step.
pub record Turn : Type 0 where
  pub now : ℕ
  -- `done.notified()`.
  pub notified : Bool
  pub reply : Option ℕ
  pub peer : Peer

-- The element at a place of a list, and the others.
abbrev pub take_at : {X : Type 0} → ℕ → List X → Option (X × List X)
take_at i [] = none
take_at zero (x ∷ xs) = some (x, xs)
take_at (suc i) (x ∷ xs) = elim (take_at i xs) [ none ↦ none | some (y, rest) ↦ some (y, x ∷ rest) ]

-- What happens: a step of the settlement, a fetch task that asks or ends, a credit task that goes on,
-- the end of the connection.
pub data Event : Type 0 where
  own : Turn → Event
  asks : SwarmAddress → (saw_alive : Bool) → Event
  fetch_ends : (i : ℕ) (served : Bool) → Event
  credits_on : (i : ℕ) → Event
  hang_up : Event

module _ {A : Type 0} (acc : Accounting A) (t : Terms) where
  abbrev pub goto : At → Probe A → Probe A
  goto a s = record s { at = a }

  abbrev pub refresh_due : Option ℕ → ℕ → Bool
  refresh_due none now = true
  refresh_due (some at) now = not (ltb (now - at) refresh_min_interval)

  abbrev pub wake : Bool → Probe A → Probe A
  wake notified s = record s { finishing = s.finishing || notified; at = woken }

  unfoldable pub look : ℕ → Probe A → Probe A
  look now s =
      if not s.alive
      then goto (lost (acc.balance s.acct)) s
      else if ltb 0 (acc.balance s.acct) && refresh_due s.last_refresh now
      then goto refreshing s
      else goto deciding s

  unfoldable pub refreshed : Option ℕ → ℕ → Probe A → Probe A
  refreshed none now s = record s { last_refresh = some now; at = deciding }
  refreshed (some accepted) now s =
      if ltb 0 accepted
      then record s {
        acct = acc.credit s.acct accepted;
        summary = record s.summary {
          refreshes_accepted = wrap_add s.summary.refreshes_accepted 1;
          refresh_units = wrap_add s.summary.refresh_units accepted;
        };
        last_refresh = some now;
        at = deciding;
      }
      else record s { last_refresh = some now; at = deciding }

  -- The debt that no cheque in flight covers.
  unfoldable pub weigh : ℕ → Probe A → Probe A
  weigh debt s =
      let effective_debt = debt - s.pending in
      let should_cheque =
        if s.finishing then ltb 0 effective_debt else not (ltb effective_debt t.cheque_trigger) in
      if should_cheque then goto (emitting effective_debt) s else goto checking s

  abbrev pub first_rate : Option ℕ → ℕ → Option ℕ
  first_rate none rate = some rate
  first_rate (some old) rate = some old

  abbrev pub counted : ℕ → Outcome → Probe A → Probe A
  counted debt o s = record s {
    summary = record s.summary {
      cheques_issued = wrap_add s.summary.cheques_issued 1;
      cheque_units = wrap_add s.summary.cheque_units debt;
      cheque_plur = (s.summary.cheque_plur + o.plur) % 2 ^ 128;
      exchange_rate = first_rate s.summary.exchange_rate o.rate;
    };
    at = checking;
  }

  -- A last cheque is credited at once, any other by a task.
  unfoldable pub emitted : ℕ → Probe A × Result Error Outcome → Probe A
  emitted debt (s, err e) =
      if s.finishing
      then record s { summary = record s.summary { residual_debt_units = debt }; at = ended unpaid }
      else goto checking s
  emitted debt (s, ok o) =
      if s.finishing
      then counted debt o (record s { acct = acc.credit s.acct debt })
      else counted debt o (record s {
        pending = wrap_add s.pending debt;
        credits = s.credits ++ (sleeping, debt) ∷ [];
      })

  abbrev pub check : Probe A → Probe A
  check s = if s.finishing then goto (measuring (acc.balance s.acct)) s else goto waiting s

  unfoldable pub measure : ℕ → Probe A → Probe A
  measure balance s =
      let residual = balance - s.pending in
      if (residual == 0) || ltb 0 s.summary.residual_debt_units
      then record s {
        summary = record s.summary { residual_debt_units = residual };
        at = ended swept;
      }
      else goto waiting s

  abbrev pub lose : ℕ → Probe A → Probe A
  lose balance s = record s {
    summary = record s.summary { residual_debt_units = balance - s.pending };
    at = ended hung_up;
  }

  -- The settlement's own next step.
  unfoldable pub advance : Turn → Probe A → Probe A
  advance turn s = elim s.at [
    | waiting ↦ wake turn.notified s
    | woken ↦ look turn.now s
    | refreshing ↦ refreshed turn.reply turn.now s
    | deciding ↦ goto (weighing (acc.balance s.acct)) s
    | checking ↦ check s
    | lost balance ↦ lose balance s
    | weighing debt ↦ weigh debt s
    | emitting units ↦ emitted units (emit_cheque_at_rate t turn.peer units s)
    | measuring balance ↦ measure balance s
    | ended reason ↦ s
  ]

  -- One attempt of a fetch task with a permit to reserve: it looked whether the connection is alive, and
  -- then, under the lock, the debt, the reservations and the price stay within the cap.
  unfoldable pub ask : SwarmAddress → (saw_alive : Bool) → Probe A → Probe A
  ask addr saw_alive s =
      let price = t.price addr in
      if saw_alive
        && ltb (length s.fetches) t.pipeline_depth
        && not
            (ltb t.reserve_cap (sat_add (sat_add (acc.balance s.acct) (acc.reserved s.acct)) price))
      then elim (acc.try_reserve s.acct price) [
        | none ↦ s
        | some a ↦ record s { acct = a; fetches = s.fetches ++ price ∷ [] }
      ]
      else s

  -- A retrieval ends: the guard is applied, or dropped.
  unfoldable pub fetch_ended : ℕ → Bool → Probe A → Probe A
  fetch_ended i served s = elim (take_at i s.fetches) [
    | none ↦ s
    | some (price, rest) ↦ record s {
      acct = if served then acc.apply s.acct price else acc.release s.acct price;
      fetches = rest;
    }
  ]

  abbrev pub credit_step : Stage × ℕ → List (Stage × ℕ) → Probe A → Probe A
  credit_step (sleeping, units) rest s = record s {
    acct = acc.credit s.acct units;
    credits = (credited, units) ∷ rest;
  }
  credit_step (credited, units) rest s = record s {
    pending = wrap_sub s.pending units;
    credits = rest;
  }

  -- A credit task goes on by one of its two steps.
  unfoldable pub credit_ended : ℕ → Probe A → Probe A
  credit_ended i s = elim (take_at i s.credits) [
    | none ↦ s
    | some (task, rest) ↦ credit_step task rest s
  ]

  unfoldable pub step : Event → Probe A → Probe A
  step (own turn) s = advance turn s
  step (asks addr saw_alive) s = ask addr saw_alive s
  step (fetch_ends i served) s = fetch_ended i served s
  step (credits_on i) s = credit_ended i s
  step hang_up s = record s { alive = false }

  unfoldable pub run : List Event → Probe A → Probe A
  run [] s = s
  run (e ∷ es) s = run es (step e s)
