-- ===== src/Growth/Room/Cheques.antt =====
-- What a cheque of the growth probe leaves of the room under the spend cap.
use directswarm.Base.{
  ℕ, ◌+◌, ◌-◌, ◌*◌, ◌^◌, ◌≤◌, ◌<◌, ◌≡◌, ap, refl, Option, none, some, arith, unwrap_or, u64_max,
}
use directswarm.Base.Results.{Result, ok, err}
use directswarm.Mirror.{credit}
use directswarm.Pacer.{default_rate}
use directswarm.Cheque.{Error, Peer, Books, Outcome, emit_settlement_cheque}
use directswarm.Cheque.Guards.{Effect, emit_settlement_cheque-Effect}
use directswarm.Growth.{Terms, Conn, first_rate, order, emit_result, emit, prepay_result, prepay}
use directswarm.Growth.Room.{over, HasRate, deduction_of, Room, paid_less}

-- A cheque leaves the reservations and what is prepaid.
abbrev pub Keeps : Conn → Conn → Type 0
Keeps c c' = (c'.acct.reserved ≡ c.acct.reserved) × (c'.prepaid ≡ c.prepaid)

emit_result-Keeps :
    (units now : ℕ) (c : Conn) (x : Books × Result Error Outcome)
    → Keeps c (emit_result units now c x).0
unfolding emit_result credit
emit_result-Keeps units now c (b, err e) = (refl, refl)
emit_result-Keeps units now c (b, ok o) = (refl, refl)

pub emit-Keeps :
    (t : Terms) (peer : Peer) (units now : ℕ) (c : Conn) → Keeps c (emit t peer units now c).0
unfolding emit
emit-Keeps t peer units now c =
    emit_result-Keeps units now c (emit_settlement_cheque (order t units) peer c.books)

-- The first announced rate is kept.
first_rate_bounds :
    (e : Option ℕ) (next : ℕ) {r : ℕ}
    → r ≤ next × next ≤ default_rate
    → r ≤ unwrap_or e default_rate
    → unwrap_or e default_rate ≤ default_rate
    → (r ≤ unwrap_or (first_rate e next) default_rate)
      × (unwrap_or (first_rate e next) default_rate ≤ default_rate)
first_rate_bounds none next (a, b) h k = (a, b)
first_rate_bounds (some old) next n h k = (h, k)

-- What a cheque leaves, by its result.
module _ (t : Terms) (r : ℕ) (low : r ≤ default_rate) (peer : Peer) (honest : HasRate r peer)
    (units : ℕ) where
  -- A cheque moves the rate times its units, and the deduction.
  moved :
      (b b' : Books) (o : Outcome)
      → Effect (order t units) peer b b' (ok o)
      → (b'.issued_plur ≡ b.issued_plur + (r * units + deduction_of peer)) × (o.rate ≡ r)
  moved b b' o (quote, a, positive, e, up, fits, cumulative, within, kept, rated) =
      let same : quote.0 ≡ r = rw a at honest in
      let taken : deduction_of peer ≡ quote.1 = rw a refl in
      (rw taken (ground (arith, ap (λ n. n * units) same)), (omega arith))

  emit_result-Room :
      (bound now : ℕ) (c : Conn) (x : Books × Result Error Outcome)
      → units ≤ c.acct.balance - c.prepaid
      → Room t r bound c
      → Effect (order t units) peer c.books x.0 x.1
      → Room t r (bound + deduction_of peer) (emit_result units now c x).0
  unfolding emit_result credit
  emit_result-Room bound now c (b, err e) k h f = ground arith
  emit_result-Room bound now c (b, ok o) k h f =
      let (paid, rated) = moved c.books b o f in
      let owed : over c ≡ (c.acct.balance - units + c.acct.reserved - c.prepaid) + units =
        omega arith in
      let (rate_low, rate_high) =
        first_rate_bounds c.exchange_rate o.rate (omega arith) h.rate_low h.rate_high in
      record {
        small = omega (arith, h.small);
        prepaid_small = h.prepaid_small;
        issued = f.5;
        rate_low = rate_low;
        rate_high = rate_high;
        spend = λ pos. omega (
          arith,
          paid,
          paid_less c.books.issued_plur (c.acct.balance - units + c.acct.reserved - c.prepaid) units
              r (deduction_of peer) bound
              (omega (arith, h.spend (omega arith), ap (λ n. n * r) owed)),
        );
      }

  prepay_result-Room :
      (bound now : ℕ) (c : Conn) (x : Books × Result Error Outcome)
      → c.prepaid ≡ 0
      → units ≤ 2 ^ 62
      → Room t r bound c
      → Effect (order t units) peer c.books x.0 x.1
      → Room t r (bound + deduction_of peer) (prepay_result units now c x).0
  unfolding prepay_result
  prepay_result-Room bound now c (b, err e) z k h f = ground arith
  prepay_result-Room bound now c (b, ok o) z k h f =
      let (paid, rated) = moved c.books b o f in
      let (rate_low, rate_high) =
        first_rate_bounds c.exchange_rate o.rate (omega arith) h.rate_low h.rate_high in
      record {
        small = h.small;
        prepaid_small = k;
        issued = f.5;
        rate_low = rate_low;
        rate_high = rate_high;
        spend = λ pos.
            let owed : over c ≡ (c.acct.balance + c.acct.reserved - units) + units = omega arith in
            omega (
              arith,
              paid,
              paid_less c.books.issued_plur (c.acct.balance + c.acct.reserved - units) units r
                  (deduction_of peer) bound
                  (omega (arith, h.spend (omega arith), ap (λ n. n * r) owed)),
            );
      }

  module _ (capped : t.max_issue_plur < u64_max) where
    pub emit-Room :
        (bound now : ℕ) (c : Conn)
        → units ≤ c.acct.balance - c.prepaid
        → Room t r bound c
        → Room t r (bound + deduction_of peer) (emit t peer units now c).0
    unfolding emit
    emit-Room bound now c k h =
        emit_result-Room bound now c (emit_settlement_cheque (order t units) peer c.books) k h
          (emit_settlement_cheque-Effect (order t units) peer c.books h.issued capped)

    pub prepay-Room :
        (bound now : ℕ) (c : Conn)
        → c.prepaid ≡ 0
        → units ≤ 2 ^ 62
        → Room t r bound c
        → Room t r (bound + deduction_of peer) (prepay t peer units now c).0
    unfolding prepay
    prepay-Room bound now c z k h =
        prepay_result-Room bound now c (emit_settlement_cheque (order t units) peer c.books) z k h
          (emit_settlement_cheque-Effect (order t units) peer c.books h.issued capped)
