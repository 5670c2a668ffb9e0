-- ===== src/Connection.antt =====
-- `drive` of rust/ds-net/src/schedule.rs: the fetch and settle loop of one connection, cut where it
-- awaits. Its fetch tasks and the other connections run between any two of its steps.
pub mod Loop
pub mod Events
pub mod Invariant
pub mod Conserve
pub mod Residual
pub mod Stop
pub mod Lambda
pub mod Established
pub mod Samples
mod Tests
use directswarm.Base.{
  ℕ, zero, suc, ◌+◌, ◌-◌, ◌*◌, ◌/◌, ◌%◌, ◌^◌, min, max, Bool, true, false, not, ◌&&◌, ◌||◌, List,
  [], ◌∷◌, ◌++◌, Option, none, some, ltb, ◌==◌, if◌then◌else◌, length, is_empty, sat_mul, wrap_add,
  u64_max,
}
use directswarm.Base.Results.{Result, ok, err}
use directswarm.Swarm.{SwarmAddress}
use directswarm.Wire.{Bytes}
use directswarm.Hex.{HexCrate}
use directswarm.Mirror.{apply, release, credit}
use directswarm.Pacer.{Pacer, threshold, admit, emitted, prepaid_emitted, settle_reply, from_millis}
use directswarm.Cheque.{Error, Order, Peer, Books, Outcome, emit_settlement_cheque}
use directswarm.ChunkStore.{Store, Write, contains, put}
use directswarm.Dispatch.{Pool, pop, remaining}

abbrev pub refresh_min_interval : ℕ
refresh_min_interval = from_millis 1_100

abbrev pub cheque_min_interval : ℕ
cheque_min_interval = from_millis 500

-- What every connection sees. `fallback` is the channel's queue.
pub record Shared : Type 0 where
  pub pool : Pool
  pub store : Store
  pub fallback : List SwarmAddress
  pub books : Books
  pub wind_down : Bool
  pub direct_bytes : ℕ
  pub direct_ok : ℕ
  pub refresh_units : ℕ
  pub cheques : ℕ
  pub cheque_plur : ℕ

-- What does not change while a connection is driven. `price` is `Accounting::peer_price` at the
-- peer's overlay.
pub record Conn : Type 0 where
  pub price : SwarmAddress → ℕ
  pub prefix : ℕ
  pub pipeline : ℕ
  pub prepay : Bool
  pub beneficiary : List ℕ
  pub issuable : ℕ
  pub max_issue_plur : ℕ

-- Where the loop stands, with the local variables that are live there.
pub data At : Type 0 where
  head : At
  -- `while tasks.join_next()` of a peer that hung up.
  hung_up : At
  admitting : (halted : Bool) → At
  reaping : (halted : Bool) → At
  -- `refresh_peer` is awaited.
  refreshing : (halted : Bool) → At
  settling : (halted : Bool) → At
  -- The two kinds of cheque are awaited.
  prepaying : (halted : Bool) (units : ℕ) → At
  emitting : (halted : Bool) (units : ℕ) → At
  closing : (halted : Bool) → At
  returned : (residual : ℕ) → At

pub record Drive : Type 0 where
  pub pacer : Pacer
  -- The running tasks, each with its reserved price, and the number of those that wait to be
  -- joined.
  pub running : List (SwarmAddress × ℕ)
  pub unjoined : ℕ
  pub pending : Option SwarmAddress
  pub spend_stop : Bool
  pub bucket_drained : Bool
  pub finishing : Bool
  pub sweep_attempts : ℕ
  pub alive : Bool
  pub at : At

-- What the clock, the refresh and the settlement stream give to one step.
pub record Turn : Type 0 where
  pub now : ℕ
  pub reply : Option ℕ
  pub peer : Peer

abbrev pub State : Type 0
State = Shared × Drive

abbrev pub goto : At → State → State
goto a (g, d) = (g, record d { at = a })

-- `tasks.len()` and `tasks.is_empty()`.
abbrev pub tasks_len : Drive → ℕ
tasks_len d = length d.running + d.unjoined

abbrev pub tasks_empty : Drive → Bool
tasks_empty d = is_empty d.running && (d.unjoined == 0)

abbrev pub is_none {ℓ} : {A : Type ℓ} → Option A → Bool
is_none none = true
is_none (some a) = false

-- `debt.saturating_sub(prepaid)`.
abbrev pub unpaid : Pacer → ℕ
unpaid p = p.mirror.balance - p.prepaid

-- `last.is_none_or(|at| at.elapsed() >= interval)`.
abbrev pub due : Option ℕ → ℕ → ℕ → Bool
due none interval now = true
due (some at) interval now = not (ltb (now - at) interval)

-- `pending.take()` into the fallback channel.
abbrev pub shed_from : Option SwarmAddress → State → State
shed_from none (g, d) = (g, d)
shed_from (some addr) (g, d) =
    (record g { fallback = g.fallback ++ addr ∷ [] }, record d { pending = none })

abbrev pub shed : State → State
shed (g, d) = shed_from d.pending (g, d)

-- The loop's variables before its first round.
unfoldable pub driven : Pacer → Drive
driven p = record {
  pacer = p;
  running = [];
  unjoined = 0;
  pending = none;
  spend_stop = false;
  bucket_drained = false;
  finishing = false;
  sweep_attempts = 0;
  alive = true;
  at = head;
}
