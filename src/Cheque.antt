-- ===== src/Cheque.antt =====
-- `emit_settlement_cheque` of rust/ds-net/src/direct.rs: the one path by which money is spent. The
-- peer's side of the wire is a record of what it does, the books are the shared spend counter and
-- the ledger.
pub mod Guards
pub mod Unguarded
pub mod Sequence
pub mod Frame
pub mod Concurrent
mod Tests
use directswarm.Base.{
  ◌≡◌, refl, ◌⊎◌, inl, inr, ℕ, ◌+◌, ◌*◌, ◌^◌, Bool, true, false, List, [], ◌∷◌, ◌++◌, Option, none,
  some, ltb, min, ◌==◌, if◌then◌else◌, fit, u64_max, u128_max, u256_max, sat_add, wrap_add,
  wrap_sub, length,
}
use directswarm.Base.Results.{Result, ok, err, ◌>>=◌, ◌>>◌, ensure, or_fail}
use directswarm.Ledger.{Ledger, cumulative_for, record_issued}
use directswarm.Wire.{Bytes, encode_varint, parse_settlement_headers}

pub data Error : Type 0 where
  open_failed io_failed no_rate zero_rate amount_overflow exceeds_u128 : Error
  spend_guard cumulative_overflow not_issuable sign_failed : Error

-- What the caller asks for: `ChequeEmit` without its handles.
pub record Order : Type 0 where
  pub beneficiary : List ℕ
  pub debt_units : ℕ
  pub issuable : ℕ
  pub max_issue_plur : ℕ

-- What the network and the signer do: a stream opens, the empty headers go out, the response is
-- read,
-- the cheque for a cumulative is signed and put into JSON, the frame is written.
pub record Peer : Type 0 where
  pub opens : Bool
  pub greets : Bool
  pub response : Option Bytes
  pub signs : ℕ → Option Bytes
  pub writes : Bytes → Bool

pub record Books : Type 0 where
  pub issued_plur : ℕ
  pub ledger : Ledger

pub record Outcome : Type 0 where
  pub plur : ℕ
  pub rate : ℕ
  pub cumulative : ℕ

-- The rate and the deduction that the peer announces.
unfoldable pub announced : Peer → Result Error (ℕ × ℕ)
announced p = do
  ensure open_failed p.opens
  ensure io_failed p.greets
  headers ← or_fail p.response io_failed
  x ← or_fail (parse_settlement_headers headers) no_rate
  if x.0 == 0 then err zero_rate else ok x

-- units × rate + deduction in 256 bits, and at most 128 bits in all.
pub amount : ℕ → ℕ × ℕ → Result Error ℕ
amount units (rate, deduction) = do
  product ← or_fail (fit u256_max (rate * units)) amount_overflow
  plur ← or_fail (fit u256_max (product + deduction)) amount_overflow
  or_fail (fit u128_max plur) exceeds_u128

-- The guard's test, on what the counter held before the amount was added.
abbrev pub over_cap : ℕ → ℕ → ℕ → Bool
over_cap before plur cap = ltb cap (sat_add before plur)

-- The reservation against the spend cap: added first, and taken back if it was too much.
unfoldable pub reserve : ℕ → ℕ → ℕ → ℕ × Bool
reserve issued plur cap =
    if over_cap issued plur cap
    then (wrap_sub (wrap_add issued plur) plur, false)
    else (wrap_add issued plur, true)

-- `EmitCheque { bytes cheque = 1 }`, behind its length.
unfoldable pub frame : Bytes → Bytes
frame json =
    let msg = encode_varint (length json) (0x0a ∷ []) ++ json in
    encode_varint (length msg) [] ++ msg

-- The guarded part: the cumulative is raised, signed, sent and only then recorded.
pub send : Order → Peer → ℕ → Ledger → Result Error (ℕ × Ledger)
unfolding frame
send o p plur l = do
  cumulative ← or_fail (fit u256_max (cumulative_for l o.beneficiary + plur)) cumulative_overflow
  ensure not_issuable (if ltb o.issuable cumulative then false else true)
  json ← or_fail (p.signs cumulative) sign_failed
  ensure io_failed (p.writes (frame json))
  ok (cumulative, record_issued l o.beneficiary cumulative)

-- What is left in the books when the guarded part ends.
pub settle : Books → ℕ → ℕ × ℕ → ℕ → Result Error (ℕ × Ledger) → Books × Result Error Outcome
settle b issued (rate, deduction) plur (err e) =
    (record b { issued_plur = wrap_sub issued (min plur u64_max) }, err e)
settle b issued (rate, deduction) plur (ok (cumulative, l)) = (
  record { issued_plur = issued; ledger = l },
  ok (record { plur = plur; rate = min rate u128_max; cumulative = cumulative }),
)

pub spend : Order → Peer → Books → ℕ × ℕ → ℕ → Books × Result Error Outcome
unfolding send settle
spend o p b quote plur =
    let (issued, granted) = reserve b.issued_plur (min plur u64_max) o.max_issue_plur in
    if granted
    then settle b issued quote plur (send o p plur b.ledger)
    else (record b { issued_plur = issued }, err spend_guard)

unfoldable pub emit_settlement_cheque : Order → Peer → Books → Books × Result Error Outcome
unfolding announced amount spend
emit_settlement_cheque o p b = elim (announced p) [
  | err e ↦ (b, err e)
  | ok quote ↦ elim (amount o.debt_units quote) [
    | err e ↦ (b, err e)
    | ok plur ↦ spend o p b quote plur
  ]
]
