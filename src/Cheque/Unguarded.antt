-- ===== src/Cheque/Unguarded.antt =====
-- When the spend guard lets a cheque pass.
use directswarm.Base.{ℕ, ◌+◌, ◌*◌, ◌≤◌, ◌<◌, ◌≡◌, ◌≢◌, ◌∙◌, ap, inl, inr, arith, min, u64_max}
use directswarm.Base.Results.{Result-cases, Result, ok, err}
use directswarm.Ledger.{Ledger}
use directswarm.Cheque.{
  Error, spend_guard, Order, Peer, Books, announced, amount, send, settle, spend,
  emit_settlement_cheque,
}
use directswarm.Cheque.Guards.{amount_ok, emit-unquoted, emit-unpriced, emit-spend, reserve_granted}

announced-ne-guard : (p : Peer) → announced p ≢ err spend_guard
unfolding announced
announced-ne-guard p e = ground arith

amount-ne-guard : (units : ℕ) (quote : ℕ × ℕ) → amount units quote ≢ err spend_guard
unfolding amount
amount-ne-guard units (rate, deduction) e = ground arith

send-ne-guard : (o : Order) (p : Peer) (plur : ℕ) (l : Ledger) → send o p plur l ≢ err spend_guard
unfolding send
send-ne-guard o p plur l e = ground arith

settle-ne-guard :
    (b : Books) (issued plur : ℕ) (quote : ℕ × ℕ) (x : Result Error (ℕ × Ledger))
    → x ≢ err spend_guard
    → (settle b issued quote plur x).1 ≢ err spend_guard
unfolding settle
settle-ne-guard b issued plur (rate, deduction) (err e) h k = h (ap err (cc))
settle-ne-guard b issued plur (rate, deduction) (ok (cumulative, l)) h k = cc

module _ (o : Order) (p : Peer) (b : Books) (h : b.issued_plur ≤ o.max_issue_plur)
    (capped : o.max_issue_plur < u64_max) where
  spend-ne-guard :
      (quote : ℕ × ℕ) (plur : ℕ)
      → b.issued_plur + plur ≤ o.max_issue_plur
      → (spend o p b quote plur).1 ≢ err spend_guard
  unfolding spend
  spend-ne-guard quote plur fits =
      rw
        (reserve_granted b.issued_plur (min plur u64_max) o.max_issue_plur h capped (omega arith)
          (omega arith))
        (settle-ne-guard b _ plur quote (send o p plur b.ledger) (send-ne-guard o p plur b.ledger))

  -- If the quoted amount fits under the cap, whatever ends the cheque is not the guard.
  pub emit-ne-guard :
      ((quote : ℕ × ℕ)
        → announced p ≡ ok quote
        → b.issued_plur + (quote.0 * o.debt_units + quote.1) ≤ o.max_issue_plur)
      → (emit_settlement_cheque o p b).1 ≢ err spend_guard
  emit-ne-guard room = elim (Result-cases (announced p)) [
    | inr (f, a) ↦ rw (emit-unquoted o p b a) (λ e. announced-ne-guard p (a ∙ ap err (cc)))
    | inl (quote, a) ↦ elim (Result-cases (amount o.debt_units quote)) [
      | inr (f, e) ↦
          rw (emit-unpriced o p b a e) (λ k. amount-ne-guard o.debt_units quote (e ∙ ap err (cc)))
      | inl (plur, e) ↦ rw (emit-spend o p b a e) (
          spend-ne-guard quote plur
            (omega (arith, room quote a, (amount_ok o.debt_units quote.0 quote.1 e).0)))
    ]
  ]
