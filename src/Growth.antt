-- ===== src/Growth.antt =====
-- The connection of the growth probe, `Conn` of rust/ds-net/src/growth.rs: what it owes, what it has
-- paid, and the gate that keeps the spend under its cap. An instant is a number of nanoseconds.
pub mod Phase
pub mod Sample
pub mod Run
pub mod Room
pub mod Bound
pub mod Calm
pub mod Covered
mod Tests
use directswarm.Base.{
  ℕ, ◌+◌, ◌-◌, ◌*◌, ◌/◌, ◌%◌, ◌^◌, Bool, true, false, not, List, [], ◌∷◌, ◌++◌, Option, none, some,
  ltb, ◌==◌, if◌then◌else◌, unwrap_or, wrap_add, get_or, length,
}
use directswarm.Base.Results.{Result, ok, err}
use directswarm.Swarm.{SwarmAddress}
use directswarm.Mirror.{Mirror, credit}
use directswarm.Mirror
use directswarm.Pacer.{threshold_of, default_rate, prune, sum_units}
use directswarm.Cheque.{Error, Order, Peer, Books, Outcome, emit_settlement_cheque}

-- What does not change while a peer is probed: the options, the chunks that are cycled, the price of
-- a chunk at the peer (`Accounting::peer_price`) and the parts of a cheque.
pub record Terms : Type 0 where
  pub price : SwarmAddress → ℕ
  pub chunks : List SwarmAddress
  pub pipeline_depth : ℕ
  pub beneficiary : List ℕ
  pub issuable : ℕ
  pub max_issue_plur : ℕ

pub record Conn : Type 0 where
  pub acct : Mirror
  pub books : Books
  pub exchange_rate : Option ℕ
  pub alive : Bool
  -- What `threshold_rx` holds.
  pub announced : Option ℕ
  pub cheques : ℕ
  pub cheque_units : ℕ
  pub cheque_plur : ℕ
  pub refreshes : ℕ
  pub refresh_units : ℕ
  pub last_refresh : Option ℕ
  pub last_cheque : Option ℕ
  -- Emit time and units, oldest first.
  pub unvalidated : List (ℕ × ℕ)
  pub prepaid : ℕ

-- The connection after its handshake.
unfoldable pub connected : Books → Option ℕ → Conn
connected b announced = record {
  acct = Mirror.fresh;
  books = b;
  exchange_rate = none;
  alive = true;
  announced = announced;
  cheques = 0;
  cheque_units = 0;
  cheque_plur = 0;
  refreshes = 0;
  refresh_units = 0;
  last_refresh = none;
  last_cheque = none;
  unvalidated = [];
  prepaid = 0;
}

abbrev pub threshold : Conn → ℕ
threshold c = threshold_of c.announced

abbrev pub rate : Conn → ℕ
rate c = unwrap_or c.exchange_rate default_rate

-- `(debt + reserved + next_price).saturating_sub(self.prepaid)`.
abbrev pub unpaid_with : Conn → ℕ → ℕ
unpaid_with c next_price = wrap_add (wrap_add c.acct.balance c.acct.reserved) next_price - c.prepaid

-- More than 92 % of the cap, if all that is owed were paid by cheque; in 128 bits.
unfoldable pub spend_would_exceed : Terms → Conn → ℕ → Bool
spend_would_exceed t c next_price =
    ltb (t.max_issue_plur * 92 / 100)
      ((c.books.issued_plur + unpaid_with c next_price * rate c % 2 ^ 128) % 2 ^ 128)

-- `refresh` when it asks the peer; `reply` is what is accepted, or none if the exchange fails.
unfoldable pub refreshed : Option ℕ → ℕ → Conn → Conn
refreshed none now c = record c { last_refresh = some now }
refreshed (some accepted) now c =
    if ltb 0 accepted
    then record c {
      acct = credit c.acct accepted;
      refreshes = wrap_add c.refreshes 1;
      refresh_units = wrap_add c.refresh_units accepted;
      last_refresh = some now;
    }
    else record c { last_refresh = some now }

abbrev pub order : Terms → ℕ → Order
order t units = record {
  beneficiary = t.beneficiary;
  debt_units = units;
  issuable = t.issuable;
  max_issue_plur = t.max_issue_plur;
}

abbrev pub first_rate : Option ℕ → ℕ → Option ℕ
first_rate none rate = some rate
first_rate (some old) rate = some old

-- The counters after a cheque for `units`.
abbrev pub counted : ℕ → Books → Outcome → ℕ → Conn → Conn
counted units b o now c = record c {
  books = b;
  cheques = wrap_add c.cheques 1;
  cheque_units = wrap_add c.cheque_units units;
  cheque_plur = (c.cheque_plur + o.plur) % 2 ^ 128;
  exchange_rate = first_rate c.exchange_rate o.rate;
  unvalidated = c.unvalidated ++ (now, units) ∷ [];
}

-- `emit` behind the call, with its result: the mirror is credited at once.
unfoldable pub emit_result : ℕ → ℕ → Conn → Books × Result Error Outcome → Conn × Bool
emit_result units now c (b, err e) = (record c { books = b }, false)
emit_result units now c (b, ok o) =
    (record (counted units b o now c) { acct = credit c.acct units; last_cheque = some now }, true)

unfoldable pub emit : Terms → Peer → ℕ → ℕ → Conn → Conn × Bool
unfolding emit_result
emit t peer units now c =
    emit_result units now c (emit_settlement_cheque (order t units) peer c.books)

-- `prepay` behind the call: the mirror is not credited.
unfoldable pub prepay_result : ℕ → ℕ → Conn → Books × Result Error Outcome → Conn × Bool
prepay_result units now c (b, err e) = (record c { books = b }, false)
prepay_result units now c (b, ok o) = (record (counted units b o now c) { prepaid = units }, true)

unfoldable pub prepay : Terms → Peer → ℕ → ℕ → Conn → Conn × Bool
unfolding prepay_result
prepay t peer units now c =
    prepay_result units now c (emit_settlement_cheque (order t units) peer c.books)

unfoldable pub unvalidated_within : ℕ → ℕ → Conn → Conn × ℕ
unvalidated_within window now c =
    let left = prune window now c.unvalidated in (record c { unvalidated = left }, sum_units left)

-- `chunks[*cycle_idx % chunks.len()]`; there are chunks.
abbrev pub chunk_at : Terms → ℕ → SwarmAddress
chunk_at t cycle_idx = get_or t.chunks (cycle_idx % length t.chunks) []
