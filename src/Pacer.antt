-- ===== src/Pacer.antt =====
-- `Pacer` of rust/ds-net/src/schedule.rs: the exposure gate of one connection, and what the
-- settlement calls record in it. An instant is a number of nanoseconds.
pub mod Exposure
pub mod Emission
mod Tests
use directswarm.Base.{
  ℕ, ◌+◌, ◌-◌, ◌*◌, ◌/◌, Bool, true, false, List, [], ◌∷◌, ◌++◌, Option, none, some, ltb, min, max,
  unwrap_or, ◌>>=◌, if◌then◌else◌, u64_max, sat_mul, wrap_add,
}
use directswarm.Mirror.{Mirror, try_reserve, apply, release, credit}
use directswarm.Mirror
use directswarm.PeerState.{PeerState}

-- The fresh light-peer threshold, and the range of the validation latency.
abbrev pub default_threshold : ℕ
default_threshold = 1_350_000

abbrev pub default_lambda_ms : ℕ
default_lambda_ms = 3_000

abbrev pub lambda_min_ms : ℕ
lambda_min_ms = 800

abbrev pub lambda_max_ms : ℕ
lambda_max_ms = 25_000

abbrev pub default_rate : ℕ
default_rate = 100_000

-- `Duration::from_millis`.
abbrev pub from_millis : ℕ → ℕ
from_millis ms = ms * 1_000_000

pub record Pacer : Type 0 where
  pub mirror : Mirror
  -- The last value that the pricing stream announced, a `U256`.
  pub announced : Option ℕ
  pub lambda_ms : ℕ
  -- Emit time and units of the cheques that may still be validating, oldest first.
  pub unvalidated : List (ℕ × ℕ)
  pub rate : ℕ
  pub settled_units : ℕ
  pub prepaid : ℕ
  pub avg_price : ℕ
  pub last_refresh : Option ℕ
  pub last_cheque : Option ℕ

-- The pacer of a connection that `run_established` begins: what is known of the peer, and the
-- latency of a parked connection that is used again.
unfoldable pub start : Bool → Option PeerState → Option ℕ → Option ℕ → Pacer
start prepay known warm announced = record {
  mirror = Mirror.fresh;
  announced = announced;
  lambda_ms = unwrap_or warm (unwrap_or (known >>= λ k. k.lambda_ms) default_lambda_ms);
  unvalidated = [];
  rate = default_rate;
  settled_units = 0;
  prepaid = if prepay then unwrap_or (known >>= λ k. some k.surplus_units) 0 else 0;
  avg_price = 230_000;
  last_refresh = none;
  last_cheque = none;
}

-- `u64::try_from` of the announced value, or the default.
abbrev pub threshold_of : Option ℕ → ℕ
threshold_of none = default_threshold
threshold_of (some t) = if ltb u64_max t then default_threshold else t

unfoldable pub threshold : Pacer → ℕ
threshold p = threshold_of p.announced

unfoldable pub window : Pacer → ℕ
window p = from_millis (max lambda_min_ms (min lambda_max_ms p.lambda_ms) * 3 / 2)

-- The entries that are still inside the window: the front is popped while it is too old.
unfoldable pub prune : ℕ → ℕ → List (ℕ × ℕ) → List (ℕ × ℕ)
prune w now [] = []
prune w now ((at, units) ∷ rest) =
    let older = prune w now rest in if ltb w (now - at) then older else (at, units) ∷ rest

unfoldable pub sum_units : List (ℕ × ℕ) → ℕ
sum_units [] = 0
sum_units ((at, units) ∷ rest) = wrap_add units (sum_units rest)

unfoldable pub unvalidated_sum : Pacer → ℕ → Pacer × ℕ
unvalidated_sum p now =
    let left = prune (window p) now p.unvalidated in
    (record p { unvalidated = left }, sum_units left)

-- One more reservation of `price` units: debt, reservations, unvalidated cheques and the price stay
-- within what is prepaid and 105 % of the threshold.
unfoldable pub admit : Pacer → ℕ → ℕ → Pacer × Bool
unfolding unvalidated_sum
admit p price now =
    let t = threshold p in
    let (p', unval) = unvalidated_sum p now in
    let limit = wrap_add p'.prepaid (sat_mul t 105 / 100) - unval in
    let (m, done) = try_reserve p'.mirror price limit in (record p' { mirror = m }, done)

-- What `emit` does after the cheque has gone out.
unfoldable pub emitted : Pacer → ℕ → ℕ → ℕ → Pacer
emitted p units rate now = record p {
  mirror = credit p.mirror units;
  settled_units = wrap_add p.settled_units units;
  unvalidated = p.unvalidated ++ (now, units) ∷ [];
  last_cheque = some now;
  rate = if ltb u64_max rate then default_rate else rate;
}

-- What `emit_prepay` does after the cheque has gone out: the mirror is not credited.
unfoldable pub prepaid_emitted : Pacer → ℕ → ℕ → ℕ → Pacer
prepaid_emitted p units rate now = record p {
  prepaid = wrap_add p.prepaid units;
  settled_units = wrap_add p.settled_units units;
  unvalidated = p.unvalidated ++ (now, units) ∷ [];
  last_cheque = some now;
  rate = if ltb u64_max rate then default_rate else rate;
}

unfoldable pub settle_reply : Pacer → Option ℕ → Pacer
settle_reply p none = p
settle_reply p (some n) =
    if ltb 0 n
    then record p { mirror = credit p.mirror n; settled_units = wrap_add p.settled_units n }
    else p

-- `refresh`: the peer is asked only if there is unpaid debt; `reply` is the amount that it accepts,
-- or none if the exchange fails.
unfoldable pub refreshed : Pacer → Option ℕ → ℕ → Pacer
unfolding settle_reply
refreshed p reply now =
    let p' = if ltb 0 (p.mirror.balance - p.prepaid) then settle_reply p reply else p in
    record p' { last_refresh = some now }
