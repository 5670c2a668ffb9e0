-- ===== src/Growth/Room.antt =====
-- What every operation of the growth probe's connection keeps of the room under its spend cap.
pub mod Cheques
use native.Mathlib.Nat.{mul-le-mul_right, mul-le-mul_left}
use directswarm.Base.{
  ℕ, ◌+◌, ◌-◌, ◌*◌, ◌/◌, ◌%◌, ◌^◌, ◌≤◌, ◌<◌, ◌≡◌, ap, refl, Bool, true, false, Option, none, some,
  ltb, arith, min, unwrap_or, wrap_add, u64_max, u128_max,
}
use directswarm.Base.Results.{Result, ok, err}
use directswarm.Mirror.{Mirror, try_reserve, apply, release, credit}
use directswarm.Pacer.{default_rate}
use directswarm.Cheque.{Error, Peer, Books, Outcome, announced, emit_settlement_cheque}
use directswarm.Cheque.Guards.{Effect, emit_settlement_cheque-Effect}
use directswarm.Growth.{
  Terms, Conn, first_rate, rate, unpaid_with, spend_would_exceed, refreshed, order, emit_result,
  emit, prepay_result, prepay, unvalidated_within,
}

-- What is owed or reserved beyond what is prepaid.
abbrev pub over : Conn → ℕ
over c = c.acct.balance + c.acct.reserved - c.prepaid

-- The peer announces the rate, if it announces one.
abbrev pub IsRate : ℕ → Result Error (ℕ × ℕ) → Type 0
IsRate r (err e) = Unit
IsRate r (ok (announced_rate, deduction)) = announced_rate ≡ r

abbrev pub HasRate : ℕ → Peer → Type 0
HasRate r p = IsRate r (announced p)

abbrev pub deducted_by : Result Error (ℕ × ℕ) → ℕ
deducted_by (err e) = 0
deducted_by (ok (announced_rate, deduction)) = deduction

abbrev pub deduction_of : Peer → ℕ
deduction_of p = deducted_by (announced p)

module _ (t : Terms) (r : ℕ) where
  -- At the rate, the cheques that went out and those that are still owed cost at most the bound.
  pub record Room (bound : ℕ) (c : Conn) : Type 0 where
    pub small : c.acct.balance + c.acct.reserved ≤ 2 ^ 63
    pub prepaid_small : c.prepaid ≤ 2 ^ 62
    pub issued : c.books.issued_plur ≤ t.max_issue_plur
    pub rate_low : r ≤ rate c
    pub rate_high : rate c ≤ default_rate
    pub spend : 0 < over c → c.books.issued_plur + over c * r ≤ bound

-- A larger bound.
pub Room-weaken :
    (t : Terms) (r bound more : ℕ) (c : Conn) → Room t r bound c → Room t r (bound + more) c
Room-weaken t r bound more c h = record {
  small = h.small;
  prepaid_small = h.prepaid_small;
  issued = h.issued;
  rate_low = h.rate_low;
  rate_high = h.rate_high;
  spend = λ pos. omega (arith, h.spend pos);
}

pub spend_less : (i a b r bound : ℕ) → a ≤ b → i + b * r ≤ bound → i + a * r ≤ bound
spend_less i a b r bound h k = omega (arith, mul-le-mul_right r h)

pub paid_less :
    (i rest units r d bound : ℕ)
    → i + (rest + units) * r ≤ bound
    → i + (r * units + d) + rest * r ≤ bound + d
paid_less i rest units r d bound h = omega arith

module _ (t : Terms) (r : ℕ) (capped : t.max_issue_plur < u64_max) where
  -- What the gate lets through fits under 92 % of the cap.
  pub spend_would_exceed_lem :
      (bound : ℕ) (c : Conn) (price : ℕ)
      → Room t r bound c
      → price ≤ 2 ^ 62
      → spend_would_exceed t c price ≡ false
      → c.books.issued_plur + (c.acct.balance + c.acct.reserved + price - c.prepaid) * r
        ≤ t.max_issue_plur * 92 / 100
  unfolding spend_would_exceed
  spend_would_exceed_lem bound c price h k e =
      let owed : ℕ = c.acct.balance + c.acct.reserved + price - c.prepaid in
      let exact : unpaid_with c price ≡ owed = omega (arith, h.small) in
      let more : owed * r ≤ owed * rate c = mul-le-mul_left owed h.rate_low in
      let most : owed * rate c ≤ owed * default_rate = mul-le-mul_left owed h.rate_high in
      let wide : owed ≤ 2 ^ 64 = omega (arith, h.small) in
      let whole : (c.books.issued_plur + unpaid_with c price * rate c % 2 ^ 128) % 2 ^ 128
          ≡ c.books.issued_plur + owed * rate c =
        omega (arith, h.issued, ap (λ n. n * rate c) exact) in
      ground (arith, whole)

  -- A mirror that shows no more than before.
  pub lessened-Room :
      (bound : ℕ) (c : Conn) (m : Mirror)
      → m.balance + m.reserved ≤ c.acct.balance + c.acct.reserved
      → Room t r bound c
      → Room t r bound (record c { acct = m })
  lessened-Room bound c m k h = record {
    small = omega (arith, h.small);
    prepaid_small = h.prepaid_small;
    issued = h.issued;
    rate_low = h.rate_low;
    rate_high = h.rate_high;
    spend = λ pos.
        spend_less c.books.issued_plur (m.balance + m.reserved - c.prepaid) (over c) r bound
          (omega arith) (h.spend (omega arith));
  }

  pub apply-Room :
      (bound : ℕ) (c : Conn) (price : ℕ)
      → price ≤ c.acct.reserved
      → Room t r bound c
      → Room t r bound (record c { acct = apply c.acct price })
  unfolding apply
  apply-Room bound c price k h = lessened-Room bound c _ (omega (arith, h.small)) h

  pub release-Room :
      (bound : ℕ) (c : Conn) (price : ℕ)
      → Room t r bound c
      → Room t r bound (record c { acct = release c.acct price })
  unfolding release
  release-Room bound c price h = lessened-Room bound c _ (omega arith) h

  pub refreshed-Room :
      (bound : ℕ) (reply : Option ℕ) (now : ℕ) (c : Conn)
      → Room t r bound c
      → Room t r bound (refreshed reply now c)
  unfolding refreshed credit
  refreshed-Room bound none now c h = ground arith
  refreshed-Room bound (some n) now c h =
      let less = lessened-Room bound c (credit c.acct n) (unfold credit in omega arith) h in
      ground (arith, less.spend)

  -- A reservation that the mirror grants within a limit below the largest word.
  pub try_reserve-Room :
      (bound : ℕ) (c : Conn) (price limit : ℕ) (m : Mirror)
      → limit ≤ 2 ^ 63
      → c.books.issued_plur + (c.acct.balance + c.acct.reserved + price - c.prepaid) * r ≤ bound
      → Room t r bound c
      → try_reserve c.acct price limit ≡ (m, true)
      → Room t r bound (record c { acct = m })
        × (m.reserved ≡ c.acct.reserved + price)
        × (m.balance ≡ c.acct.balance)
  unfolding try_reserve
  try_reserve-Room bound c price limit m k gate h e =
      let grown : m.reserved ≡ c.acct.reserved + price = ground arith in
      let kept : m.balance ≡ c.acct.balance = ground arith in
      let fits : m.balance + m.reserved ≤ limit = ground arith in
      (
        record {
          small = omega arith;
          prepaid_small = h.prepaid_small;
          issued = h.issued;
          rate_low = h.rate_low;
          rate_high = h.rate_high;
          spend = λ pos.
              spend_less c.books.issued_plur (m.balance + m.reserved - c.prepaid)
                (c.acct.balance + c.acct.reserved + price - c.prepaid) r bound (omega arith) gate;
        },
        grown,
        kept,
      )
