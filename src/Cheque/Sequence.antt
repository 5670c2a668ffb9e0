-- ===== src/Cheque/Sequence.antt =====
-- Any number of cheques, one after the other, over the same books and under one spend cap.
use directswarm.Base.{
  ℕ, ◌+◌, ◌≤◌, ◌<◌, ◌≡◌, ap, List, [], ◌∷◌, bytes_eq, bytes_beq, bytes_beq_iff, lookup-insert,
  u64_max, if◌then◌else◌, arith, All,
}
use directswarm.Ledger.{Ledger, cumulative_for, record_issued}
use directswarm.Base.Results.{Result, ok, err}
use directswarm.Cheque.{Order, Peer, Books, Outcome, emit_settlement_cheque, Error}
use directswarm.Cheque.Guards.{Effect, emit_settlement_cheque-Effect}

abbrev pub moved : Result Error Outcome → ℕ
moved (ok out) = out.plur
moved (err e) = 0

-- The cheques of the list in turn, with the beneficiary and the amount of each.
abbrev pub run : List (Order × Peer) → Books → Books × List (List ℕ × ℕ)
run [] b = (b, [])
run ((o, p) ∷ rest) b =
    let r = emit_settlement_cheque o p b in
    let q = run rest r.0 in (q.0, (o.beneficiary, moved r.1) ∷ q.1)

abbrev pub spent : List (List ℕ × ℕ) → ℕ
spent [] = 0
spent ((who, n) ∷ rest) = n + spent rest

abbrev pub paid_to : List ℕ → List (List ℕ × ℕ) → ℕ
paid_to who [] = 0
paid_to who ((to, n) ∷ rest) = (if bytes_beq to who then n else 0) + paid_to who rest

pub cumulative_for-record_issued :
    (l : Ledger) (to who : List ℕ) (n : ℕ)
    → cumulative_for (record_issued l to n) who
      ≡ (if bytes_beq to who then n else cumulative_for l who)
unfolding cumulative_for record_issued
cumulative_for-record_issued l to who n = ground (arith, lookup-insert to who n l.map)

-- What one cheque adds to every beneficiary's cumulative.
pub raised :
    (o : Order) (p : Peer) (b b' : Books) (r : Result Error Outcome)
    → Effect o p b b' r
    → (who : List ℕ)
    → cumulative_for b'.ledger who
      ≡ cumulative_for b.ledger who + (if bytes_beq o.beneficiary who then moved r else 0)
raised o p b b' (err e) effect who = ground (arith, effect.1)
raised o p b b' (ok out) (quote, _, _, _, _, _, next, _, kept, _) who = ground (
  arith,
  ap (λ l. cumulative_for l who) kept,
  cumulative_for-record_issued b.ledger o.beneficiary who out.cumulative,
  bytes_beq_iff o.beneficiary who,
)

pub counted :
    (o : Order) (p : Peer) (b b' : Books) (r : Result Error Outcome)
    → b.issued_plur ≤ o.max_issue_plur
    → Effect o p b b' r
    → (b'.issued_plur ≡ b.issued_plur + moved r) × (b'.issued_plur ≤ o.max_issue_plur)
counted o p b b' (err e) h effect = (omega (arith, effect.0), omega (arith, effect.0))
counted o p b b' (ok out) h (_, _, _, _, up, within, _, _, _, _) = (up, within)

-- Cheques one after the other under one spend cap below the largest word, from books within it: the
-- counter ends at its start plus all that was moved and within the cap, and the recorded cumulative
-- of every beneficiary rises by exactly what was moved to it.
pub run-Books :
    (cap : ℕ) (orders : List (Order × Peer)) (b : Books)
    → All (λ (x : Order × Peer). x.0.max_issue_plur ≡ cap) orders
    → b.issued_plur ≤ cap
    → cap < u64_max
    → ((run orders b).0.issued_plur ≡ b.issued_plur + spent (run orders b).1)
      × ((run orders b).0.issued_plur ≤ cap)
      × ((who : List ℕ)
          → cumulative_for (run orders b).0.ledger who
            ≡ cumulative_for b.ledger who + paid_to who (run orders b).1)
run-Books cap [] b same h k = (omega arith, h, λ who. omega arith)
run-Books cap ((o, p) ∷ rest) b (here, same) h k =
    let effect = emit_settlement_cheque-Effect o p b (omega (arith, here)) (omega (arith, here)) in
    let r = emit_settlement_cheque o p b in
    let one = counted o p b r.0 r.1 (omega (arith, here)) effect in
    let ih = run-Books cap rest r.0 same (omega (arith, here, one)) k in
    (
      omega (arith, one, ih.0),
      ih.1,
      λ who. omega (arith, raised o p b r.0 r.1 effect who, ih.2 who),
    )
