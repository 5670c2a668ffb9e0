-- ===== src/Direct.antt =====
-- The fetch of chunks from one storer, `probe_storer` with its `settlement_loop` in
-- rust/ds-net/src/direct.rs: the fetch tasks reserve under a cap, the settlement pays, and the credit
-- of each cheque lands later. `Accounting` is another package's.
pub mod Loop
pub mod Invariant
pub mod Emission
pub mod Tasks
pub mod Run
pub mod Sweep
mod Tests
use directswarm.Base.{
  ℕ, ◌+◌, ◌-◌, ◌/◌, ◌≤◌, ◌≡◌, Bool, true, false, List, [], ◌∷◌, ◌++◌, Option, none, some, ltb,
  if◌then◌else◌, min, sat_add, u64_max,
}
use directswarm.Base.Results.{Result, ok, err}
use directswarm.Swarm.{SwarmAddress}
use directswarm.Pacer.{from_millis, default_threshold, threshold_of}
use directswarm.Ledger.{Ledger}
use directswarm.Cheque.{Error, Order, Peer, Books, Outcome, emit_settlement_cheque}

-- The mirror of one peer's account: what is owed, what is reserved, and the calls that change them.
pub record Accounting (A : Type 0) : Type 0 where
  pub balance : A → ℕ
  pub reserved : A → ℕ
  pub try_reserve : A → ℕ → Option A
  -- The guard of a reservation, applied or dropped.
  pub apply : A → ℕ → A
  pub release : A → ℕ → A
  pub credit : A → ℕ → A
  pub balance-credit : (a : A) (n : ℕ) → balance (credit a n) ≡ balance a - n
  pub reserved-credit : (a : A) (n : ℕ) → reserved (credit a n) ≡ reserved a
  pub balance-try_reserve : (a b : A) (p : ℕ) → try_reserve a p ≡ some b → balance b ≡ balance a
  pub reserved-try_reserve :
      (a b : A) (p : ℕ) → try_reserve a p ≡ some b → reserved b ≡ reserved a + p
  pub balance-apply : (a : A) (p : ℕ) → p ≤ reserved a → balance (apply a p) ≡ balance a + p
  pub reserved-apply : (a : A) (p : ℕ) → p ≤ reserved a → reserved (apply a p) ≡ reserved a - p
  pub balance-release : (a : A) (p : ℕ) → balance (release a p) ≡ balance a
  pub reserved-release : (a : A) (p : ℕ) → p ≤ reserved a → reserved (release a p) ≡ reserved a - p

abbrev pub refresh_min_interval : ℕ
refresh_min_interval = from_millis 1_100

-- What does not change while the storer is probed. `price` is `Accounting::peer_price`.
pub record Terms : Type 0 where
  pub price : SwarmAddress → ℕ
  pub pipeline_depth : ℕ
  pub reserve_cap : ℕ
  pub cheque_trigger : ℕ
  pub beneficiary : List ℕ
  pub issuable : ℕ
  pub max_issue_plur : ℕ

-- Half the announced threshold is the cap, and half of that triggers a cheque.
unfoldable pub paced_by : Option ℕ → Terms → Terms
paced_by announced t =
    let reserve_cap = threshold_of announced / 2 in
    record t { reserve_cap = reserve_cap; cheque_trigger = reserve_cap / 2 }

pub record SettlementSummary : Type 0 where
  pub cheques_issued : ℕ
  pub cheque_units : ℕ
  pub cheque_plur : ℕ
  pub exchange_rate : Option ℕ
  pub refreshes_accepted : ℕ
  pub refresh_units : ℕ
  pub residual_debt_units : ℕ

abbrev pub no_summary : SettlementSummary
no_summary = record {
  cheques_issued = 0;
  cheque_units = 0;
  cheque_plur = 0;
  exchange_rate = none;
  refreshes_accepted = 0;
  refresh_units = 0;
  residual_debt_units = 0;
}

-- A task that credits a cheque: it sleeps, credits the mirror, and only then takes the units off the
-- pending ones.
pub data Stage : Type 0 where
  sleeping credited : Stage

-- Why the settlement ended: nothing is owed, the peer hung up, or the last cheque failed.
pub data Reason : Type 0 where
  swept hung_up unpaid : Reason

-- Where the settlement stands, with what it has read.
pub data At : Type 0 where
  waiting woken refreshing deciding checking : At
  -- The balance of a lost connection was read.
  lost : (balance : ℕ) → At
  weighing : (debt : ℕ) → At
  emitting : (units : ℕ) → At
  measuring : (balance : ℕ) → At
  ended : Reason → At

pub record Probe (A : Type 0) : Type 0 where
  pub acct : A
  -- The prices of the fetches in flight.
  pub fetches : List ℕ
  -- `pending_cheque_units`, and the tasks that will take from it.
  pub pending : ℕ
  pub credits : List (Stage × ℕ)
  pub ledger : Ledger
  pub issued_plur : ℕ
  pub alive : Bool
  pub finishing : Bool
  pub last_refresh : Option ℕ
  pub summary : SettlementSummary
  pub at : At

abbrev pub started : {A : Type 0} → A → Ledger → Probe A
started a l = record {
  acct = a;
  fetches = [];
  pending = 0;
  credits = [];
  ledger = l;
  issued_plur = 0;
  alive = true;
  finishing = false;
  last_refresh = none;
  summary = no_summary;
  at = waiting;
}

abbrev pub order : Terms → ℕ → Order
order t units = record {
  beneficiary = t.beneficiary;
  debt_units = units;
  issuable = t.issuable;
  max_issue_plur = t.max_issue_plur;
}

-- `emit_cheque_at_rate`: the counter of the run, which is kept only if the cheque went out.
unfoldable pub kept_if_sent :
    {A : Type 0} → Probe A → Books × Result Error Outcome → Probe A × Result Error Outcome
kept_if_sent s (b, err e) = (record s { ledger = b.ledger }, err e)
kept_if_sent s (b, ok o) = (record s { ledger = b.ledger; issued_plur = b.issued_plur }, ok o)

unfoldable pub emit_cheque_at_rate :
    {A : Type 0} → Terms → Peer → ℕ → Probe A → Probe A × Result Error Outcome
unfolding kept_if_sent
emit_cheque_at_rate t peer units s = kept_if_sent s (
    emit_settlement_cheque (order t units) peer
      (record { issued_plur = min s.issued_plur u64_max; ledger = s.ledger }))
