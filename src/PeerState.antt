-- ===== src/PeerState.antt =====
-- rust/ds-net/src/peerstate.rs: what is remembered of each peer, and how an observation is merged.
-- Its file is in PeerState.File.
pub mod Merge
pub mod File
mod Tests
use directswarm.Base.{
  ℕ, ◌+◌, ◌/◌, Bool, true, false, List, Option, none, some, max, sat_add, ◌==◌, if◌then◌else◌,
  lookup, insert, bytes_eq,
}

pub record PeerState : Type 0 where
  pub threshold_last : ℕ
  pub lambda_ms : Option ℕ
  pub settled_units : ℕ
  pub service_cps_x10 : ℕ
  pub surplus_units : ℕ
  pub last_ok_unix : ℕ

pub record PeerObservation : Type 0 where
  pub threshold : ℕ
  pub lambda_ms : Option ℕ
  pub settled_units_delta : ℕ
  pub service_cps_x10 : Option ℕ
  pub surplus_units_abs : Option ℕ
  pub clean_close : Bool

-- `PeerState::default()`.
abbrev pub unknown : PeerState
unknown = record {
  threshold_last = 0;
  lambda_ms = none;
  settled_units = 0;
  service_cps_x10 = 0;
  surplus_units = 0;
  last_ok_unix = 0;
}

-- An optional update replaces the old value.
abbrev pub or_keep {ℓ} : {A : Type ℓ} → Option A → A → A
or_keep none old = old
or_keep (some new) old = new

-- `obs.lambda_ms.is_some()` guards the assignment.
abbrev pub or_keep_option {ℓ} : {A : Type ℓ} → Option A → Option A → Option A
or_keep_option none old = old
or_keep_option (some new) old = some new

-- The moving average, `u32::midpoint` of the old value and the sample.
abbrev pub smooth : ℕ → Option ℕ → ℕ
smooth old none = old
smooth old (some r) = if old == 0 then r else (old + r) / 2

-- The body of `record` on one entry; `unix` is the wall clock in seconds.
unfoldable pub merge : PeerState → PeerObservation → ℕ → PeerState
merge e obs unix = record {
  threshold_last = max e.threshold_last obs.threshold;
  lambda_ms = or_keep_option obs.lambda_ms e.lambda_ms;
  settled_units = sat_add e.settled_units obs.settled_units_delta;
  service_cps_x10 = smooth e.service_cps_x10 obs.service_cps_x10;
  surplus_units = or_keep obs.surplus_units_abs e.surplus_units;
  last_ok_unix = if obs.clean_close then unix else e.last_ok_unix;
}

abbrev pub Store : Type 0
Store = List (List ℕ × PeerState)

unfoldable pub get : Store → List ℕ → Option PeerState
get m overlay = lookup overlay m

abbrev pub or_default : Option PeerState → PeerState
or_default none = unknown
or_default (some s) = s

-- `record` without the save to disk: `entry(..).or_default()`, then the merge.
unfoldable pub observe : Store → List ℕ → PeerObservation → ℕ → Store
observe m overlay obs unix = insert overlay (merge (or_default (lookup overlay m)) obs unix) m
