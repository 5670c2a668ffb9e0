-- ===== src/Direct/Emission.antt =====
-- `emit_cheque_at_rate`, what the settlement does with its result, and the invariant.
use mathlib.Core.Path.{subst}
use directswarm.Base.{
  ℕ, ◌+◌, ◌≤◌, ◌<◌, ◌≡◌, refl, sym, [], ◌∷◌, arith, min, u64_max, total-append, bytes_beq_iff,
}
use directswarm.Base.Results.{Result, ok, err}
use directswarm.Ledger.{Ledger, cumulative_for}
use directswarm.Cheque.{Error, Peer, Books, Outcome, emit_settlement_cheque}
use directswarm.Cheque.Guards.{Effect, emit_settlement_cheque-Effect}
use directswarm.Cheque.Sequence.{moved, raised, counted}
use directswarm.Direct.{
  Accounting, Terms, Stage, sleeping, emitting, Probe, order, kept_if_sent, emit_cheque_at_rate,
}
use directswarm.Direct.Loop.{emitted}
use directswarm.Direct.Invariant.{Known, Sound}

-- The call changes the books alone, by what the cheque moved.
pub record Paid {A : Type 0} (t : Terms) (s : Probe A) (x : Probe A × Result Error Outcome)
    : Type 0 where
  pub ledger : Ledger
  pub issued : ℕ
  pub same : x.0 ≡ record s { ledger = ledger; issued_plur = issued }
  pub up : issued ≡ s.issued_plur + moved x.1
  pub within : issued ≤ t.max_issue_plur
  pub booked :
      cumulative_for ledger t.beneficiary ≡ cumulative_for s.ledger t.beneficiary + moved x.1

module _ {A : Type 0} (t : Terms) (capped : t.max_issue_plur < u64_max) where
  kept_if_sent-Paid :
      (peer : Peer) (units : ℕ) (s : Probe A) (b : Books) (r : Result Error Outcome)
      → s.issued_plur ≤ t.max_issue_plur
      → Effect (order t units) peer (record { issued_plur = s.issued_plur; ledger = s.ledger }) b r
      → Paid t s (kept_if_sent s (b, r))
  unfolding kept_if_sent
  kept_if_sent-Paid peer units s b (err e) h effect = record {
    ledger = b.ledger;
    issued = s.issued_plur;
    same = refl;
    up = omega arith;
    within = h;
    booked = rw effect.1 (omega arith);
  }
  kept_if_sent-Paid peer units s b (ok out) h effect =
      let books : Books = record { issued_plur = s.issued_plur; ledger = s.ledger } in
      let (up, within) = counted (order t units) peer books b (ok out) h effect in
      record {
        ledger = b.ledger;
        issued = b.issued_plur;
        same = refl;
        up = up;
        within = within;
        booked = ground (
          arith,
          raised (order t units) peer books b (ok out) effect t.beneficiary,
          bytes_beq_iff t.beneficiary t.beneficiary,
        );
      }

  pub emit_cheque_at_rate-Paid :
      (peer : Peer) (units : ℕ) (s : Probe A)
      → s.issued_plur ≤ t.max_issue_plur
      → Paid t s (emit_cheque_at_rate t peer units s)
  unfolding emit_cheque_at_rate
  emit_cheque_at_rate-Paid peer units s h =
      let fits : min s.issued_plur u64_max ≡ s.issued_plur = omega arith in
      let books : Books = record { issued_plur = s.issued_plur; ledger = s.ledger } in
      let r = emit_settlement_cheque (order t units) peer books in
      rw fits (
        kept_if_sent-Paid peer units s r.0 r.1 h
          (emit_settlement_cheque-Effect (order t units) peer books h capped))

module _ {A : Type 0} (acc : Accounting A) (t : Terms) (paid : ℕ)
    (capped : t.max_issue_plur < u64_max) (wide : t.reserve_cap ≤ u64_max) where
  emitted_from :
      (units : ℕ) (s : Probe A) (l : Ledger) (issued : ℕ) (r : Result Error Outcome)
      → issued ≡ s.issued_plur + moved r
      → issued ≤ t.max_issue_plur
      → cumulative_for l t.beneficiary ≡ cumulative_for s.ledger t.beneficiary + moved r
      → Known t s (emitting units)
      → Sound acc t paid s
      → Sound acc t paid (emitted acc t units (record s { ledger = l; issued_plur = issued }, r))
  unfolding emitted
  emitted_from units s l issued (err e) up within booked k h = ground arith
  emitted_from units s l issued (ok out) up within booked k h = ground (
    arith,
    acc.balance-credit s.acct units,
    acc.reserved-credit s.acct units,
    total-append (λ (c : Stage × ℕ). c.1) s.credits ((sleeping, units) ∷ []),
  )

  pub emitted-Sound :
      (units : ℕ) (peer : Peer) (s : Probe A)
      → Known t s (emitting units)
      → Sound acc t paid s
      → Sound acc t paid (emitted acc t units (emit_cheque_at_rate t peer units s))
  emitted-Sound units peer s k h =
      let r = (emit_cheque_at_rate t peer units s).1 in
      let p = emit_cheque_at_rate-Paid t capped peer units s h.capped in
      subst (λ x. Sound acc t paid (emitted acc t units (x, r))) (sym p.same)
        (emitted_from units s p.ledger p.issued r p.up p.within p.booked k h)
