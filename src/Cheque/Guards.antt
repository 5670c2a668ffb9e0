-- ===== src/Cheque/Guards.antt =====
-- What one cheque of `emit_settlement_cheque` (rust/ds-net/src/direct.rs) does to the books, on every
-- branch.
use mathlib.Core.Path.{subst}
use directswarm.Base.{
  sym, ℕ, ◌+◌, ◌*◌, ◌≤◌, ◌<◌, ◌≡◌, inl, inr, refl, true, false, arith, min, u64_max, u128_max,
  dec_lt,
}
use directswarm.Ledger.{Ledger, cumulative_for, record_issued}
use directswarm.Base.Results.{Result-cases, Result, ok, err}
use directswarm.Cheque.{
  Error, Order, Peer, Books, Outcome, announced, amount, reserve, send, settle, spend,
  emit_settlement_cheque,
}

-- The announced rate and deduction fix the amount.
pub amount_ok :
    (units rate deduction : ℕ) {plur : ℕ}
    → amount units (rate, deduction) ≡ ok plur
    → (plur ≡ rate * units + deduction) × (plur ≤ u128_max)
unfolding amount
amount_ok units rate deduction e = ground arith

announced-ne-zero : (p : Peer) {quote : ℕ × ℕ} → announced p ≡ ok quote → 0 < quote.0
unfolding announced
announced-ne-zero p e = ground arith

-- A cheque that went out: the next cumulative, within what can be issued, and recorded.
record Sent (o : Order) (plur : ℕ) (l : Ledger) (x : ℕ × Ledger) : Type 0 where
  pub raised : x.0 ≡ cumulative_for l o.beneficiary + plur
  pub within : x.0 ≤ o.issuable
  pub kept : x.1 ≡ record_issued l o.beneficiary x.0

send_ok :
    (o : Order) (p : Peer) (plur : ℕ) (l : Ledger) {x : ℕ × Ledger}
    → send o p plur l ≡ ok x
    → Sent o plur l x
unfolding send
send_ok o p plur l e = ground arith

-- Under a cap below the largest word the counter goes up by the amount, or comes back.
module _ (issued plur cap : ℕ) (h : issued ≤ cap) (k : cap < u64_max) (m : plur ≤ u64_max) where
  pub reserve_granted : issued + plur ≤ cap → reserve issued plur cap ≡ (issued + plur, true)
  unfolding reserve
  reserve_granted fits = ground arith

  reserve_refused : cap < issued + plur → reserve issued plur cap ≡ (issued, false)
  unfolding reserve
  reserve_refused more = ground arith

-- What a call leaves in the books, by its result.
abbrev pub Effect : Order → Peer → Books → Books → Result Error Outcome → Type 0
Effect o p b b' (err e) = (b'.issued_plur ≡ b.issued_plur) × (b'.ledger ≡ b.ledger)
Effect o p b b' (ok out) =
    (quote : ℕ × ℕ) × (announced p ≡ ok quote)
    × (0 < quote.0)
    × (out.plur ≡ quote.0 * o.debt_units + quote.1)
    × (b'.issued_plur ≡ b.issued_plur + out.plur)
    × (b'.issued_plur ≤ o.max_issue_plur)
    × (out.cumulative ≡ cumulative_for b.ledger o.beneficiary + out.plur)
    × (out.cumulative ≤ o.issuable)
    × (b'.ledger ≡ record_issued b.ledger o.beneficiary out.cumulative)
    × (out.rate ≡ min quote.0 u128_max)

module _ (o : Order) (p : Peer) (b : Books) (quote : ℕ × ℕ) (plur : ℕ) where
  spend-Effect :
      announced p ≡ ok quote
      → amount o.debt_units quote ≡ ok plur
      → b.issued_plur ≤ o.max_issue_plur
      → o.max_issue_plur < u64_max
      → Effect o p b (spend o p b quote plur).0 (spend o p b quote plur).1
  unfolding spend settle
  spend-Effect a e h k = elim (dec_lt o.max_issue_plur (b.issued_plur + min plur u64_max)) [
    | yes more ↦
        rw
          (reserve_refused b.issued_plur (min plur u64_max) o.max_issue_plur h k (omega arith) more)
          (refl, refl)
    | no fits ↦
        rw
          (reserve_granted b.issued_plur (min plur u64_max) o.max_issue_plur h k (omega arith)
            (omega arith))
          (elim (Result-cases (send o p plur b.ledger)) [
            | inl (x, s) ↦
                let sent = send_ok o p plur b.ledger s in
                rw s (
                  quote,
                  a,
                  announced-ne-zero p a,
                  (amount_ok o.debt_units quote.0 quote.1 e).0,
                  omega arith,
                  omega arith,
                  sent.raised,
                  sent.within,
                  sent.kept,
                  refl,
                )
            | inr (f, s) ↦ rw s (omega arith, refl)
          ])
  ]

module _ (o : Order) (p : Peer) (b : Books) where
  pub emit-unquoted : {f : Error} → announced p ≡ err f → emit_settlement_cheque o p b ≡ (b, err f)
  unfolding emit_settlement_cheque
  emit-unquoted a = rw (a, emit_settlement_cheque) refl

  pub emit-unpriced :
      {quote : ℕ × ℕ} {f : Error}
      → announced p ≡ ok quote
      → amount o.debt_units quote ≡ err f
      → emit_settlement_cheque o p b ≡ (b, err f)
  unfolding emit_settlement_cheque
  emit-unpriced a e = ground arith

  pub emit-spend :
      {quote : ℕ × ℕ} {plur : ℕ}
      → announced p ≡ ok quote
      → amount o.debt_units quote ≡ ok plur
      → emit_settlement_cheque o p b ≡ spend o p b quote plur
  unfolding emit_settlement_cheque
  emit-spend a e = cc

-- Under a spend cap below the largest word, a cheque that fails, for whatever reason, leaves the
-- spend
-- counter and the ledger as they were; one that succeeds moves the announced, non-zero rate times
-- the
-- units plus the deduction, raises the counter by that amount within the cap and the beneficiary's
-- cumulative by that amount within what is issuable, records the new cumulative, and
-- reports the announced rate, or the largest 128-bit word in its place.
pub emit_settlement_cheque-Effect :
    (o : Order) (p : Peer) (b : Books)
    → b.issued_plur ≤ o.max_issue_plur
    → o.max_issue_plur < u64_max
    → Effect o p b (emit_settlement_cheque o p b).0 (emit_settlement_cheque o p b).1
emit_settlement_cheque-Effect o p b h k = elim (Result-cases (announced p)) [
  | inr (f, a) ↦ to_effect (emit-unquoted o p b a) (refl, refl)
  | inl (quote, a) ↦ elim (Result-cases (amount o.debt_units quote)) [
    | inr (f, e) ↦ to_effect (emit-unpriced o p b a e) (refl, refl)
    | inl (plur, e) ↦ to_effect (emit-spend o p b a e) (spend-Effect o p b quote plur a e h k)
  ]
]
  where
    to_effect :
        {r : Books × Result Error Outcome}
        → emit_settlement_cheque o p b ≡ r
        → Effect o p b r.0 r.1
        → Effect o p b (emit_settlement_cheque o p b).0 (emit_settlement_cheque o p b).1
    to_effect path t =
        subst (λ (r : Books × Result Error Outcome). Effect o p b r.0 r.1) (sym path) t
