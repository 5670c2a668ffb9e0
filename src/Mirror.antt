-- ===== src/Mirror.antt =====
-- `Mirror` of rust/ds-net/src/growth.rs: our own view of what one peer has served and not been paid
-- for. The mutex makes each method one step.
use directswarm.Base.{ℕ, ◌-◌, Bool, true, false, ltb, if◌then◌else◌, sat_add, wrap_add}

pub record Mirror : Type 0 where
  -- Units served and not settled.
  pub balance : ℕ
  -- Units of the fetches in flight.
  pub reserved : ℕ

-- `Mirror::default()`.
abbrev pub fresh : Mirror
fresh = record { balance = 0; reserved = 0 }

unfoldable pub try_reserve : Mirror → ℕ → ℕ → Mirror × Bool
try_reserve s price limit =
    if ltb limit (sat_add (sat_add s.balance s.reserved) price)
    then (s, false)
    else (record s { reserved = wrap_add s.reserved price }, true)

-- Served: the price moves from the reservations to the debt.
unfoldable pub apply : Mirror → ℕ → Mirror
apply s price = record s { reserved = s.reserved - price; balance = sat_add s.balance price }

-- The fetch failed.
unfoldable pub release : Mirror → ℕ → Mirror
release s price = record s { reserved = s.reserved - price }

-- A settlement was accepted.
unfoldable pub credit : Mirror → ℕ → Mirror
credit s amount = record s { balance = s.balance - amount }
