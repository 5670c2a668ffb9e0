-- ===== src/Connection/Residual.antt =====
-- The final sweep of `drive` in rust/ds-net/src/schedule.rs.
use directswarm.Base.{
  ℕ, zero, suc, ◌+◌, ◌<◌, ◌≡◌, refl, ap, ◌∙◌, Bool, true, false, ltb, if◌then◌else◌, arith,
  Bool-cases, inl, inr,
}
use directswarm.Base.Results.{Result, ok, err}
use directswarm.Mirror.{credit}
use directswarm.Pacer.{Pacer, emitted}
use directswarm.Cheque.{Error, Books, Outcome, emit_settlement_cheque}
use directswarm.Connection.{
  cheque_min_interval, Shared, Conn, At, head, hung_up, admitting, reaping, refreshing, settling,
  prepaying, emitting, closing, returned, Drive, Turn, State, goto, tasks_len, tasks_empty, unpaid,
  due,
}
use directswarm.Connection.Loop.{
  begin, give_up, admit_next, reap, finish_refresh, settle, order, prepaid_result, sweep_failed,
  debt_result, close, advance,
}

settle-final :
    (c : Conn) (now : ℕ) (halted : Bool) (g : Shared) (d : Drive)
    → d.finishing ≡ true
    → due d.pacer.last_cheque cheque_min_interval now ≡ true
    → settle c now halted (g, d)
      ≡ goto
          (if ltb 0 (unpaid d.pacer) then emitting halted (unpaid d.pacer) else closing halted)
          (g, d)
unfolding settle
settle-final c now halted g d f h = ground arith

close-paid :
    (halted : Bool) (g : Shared) (d : Drive)
    → d.finishing ≡ true
    → tasks_empty d ≡ true
    → unpaid d.pacer ≡ 0
    → (close halted (g, d)).1.at ≡ returned 0
unfolding close
close-paid halted g d f e u = ground arith

-- What is credited is what was owed.
unpaid-emitted : (p : Pacer) (rate now : ℕ) → unpaid (emitted p (unpaid p) rate now) ≡ 0
unfolding emitted credit
unpaid-emitted p rate now = omega arith

advance-settling :
    (c : Conn) (t : Turn) (halted : Bool) (g : Shared) (d : Drive)
    → d.at ≡ settling halted
    → advance c t (g, d) ≡ settle c t.now halted (g, d)
unfolding advance settle directswarm.Connection.Loop.desired
advance-settling c t halted g d e = rw (e, advance) refl

-- Having returned, the connection stays where it is.
advance-ended :
    (c : Conn) (t : Turn) (residual : ℕ) (s : State)
    → s.1.at ≡ returned residual
    → (advance c t s).1.at ≡ returned residual
unfolding advance
advance-ended c t residual (g, d) e = rw (e, advance) e

-- Where a sweep ends up: with nothing owed, or its cheque sent, the connection has returned with nothing
-- unpaid; a failed cheque is tried again in another round, but not a third time.
abbrev pub sweep_end : ℕ → ℕ → Result Error Outcome → At
sweep_end attempts zero r = returned 0
sweep_end attempts (suc owed) (ok o) = returned 0
sweep_end attempts (suc owed) (err e) = if ltb (attempts + 1) 3 then head else returned (suc owed)

close-owing :
    (halted : Bool) (g : Shared) (d : Drive)
    → d.finishing ≡ true
    → 0 < unpaid d.pacer
    → (close halted (g, d)).1.at ≡ head
unfolding close
close-owing halted g d f u = ground arith

-- The connection is finishing, has no tasks, and its cheque is due.
module _ (c : Conn) (t1 t2 t3 : Turn) (halted : Bool) (g : Shared) (d : Drive)
    (f : d.finishing ≡ true) (idle : tasks_empty d ≡ true) where
  -- A cheque that fails.
  sweep_failed-end :
      (b : Books) (e : Error)
      → 0 < unpaid d.pacer
      → (advance c t3 (
          sweep_failed halted
            (record g { books = b }, record d { at = emitting halted (unpaid d.pacer) }))).1.at
        ≡ (if ltb (d.sweep_attempts + 1) 3 then head else returned (unpaid d.pacer))
  unfolding sweep_failed advance
  sweep_failed-end b e owes = elim (Bool-cases (ltb (d.sweep_attempts + 1) 3)) [
    | inl again ↦
        rw (f, again)
          (close-owing halted (record g { books = b })
            (record d {
              finishing = true;
              sweep_attempts = d.sweep_attempts + 1;
              at = closing halted;
            })
            refl owes)
    | inr given_up ↦ rw (f, given_up) refl
  ]

  -- The cheque for what is owed, and the next step.
  paid-end :
      (r : Books × Result Error Outcome)
      → 0 < unpaid d.pacer
      → (advance c t3 (
          debt_result t2 halted
            (unpaid d.pacer)
            (goto (emitting halted (unpaid d.pacer)) (g, d))
            r)).1.at
        ≡ elim r.1 [
          | ok o ↦ returned 0
          | err e ↦ if ltb (d.sweep_attempts + 1) 3 then head else returned (unpaid d.pacer)
        ]
  unfolding debt_result
  paid-end (b, err e) owes = sweep_failed-end b e owes
  paid-end (b, ok o) owes =
      unfold advance in
      close-paid halted _
        (record d { at = closing halted; pacer = emitted d.pacer (unpaid d.pacer) o.rate t2.now }) f
        idle (unpaid-emitted d.pacer o.rate t2.now)

  clear : unpaid d.pacer ≡ 0 → (advance c t2 (goto (closing halted) (g, d))).1.at ≡ returned 0
  clear u = unfold advance in close-paid halted g (record d { at = closing halted }) f idle u

  settled-end :
      (n : ℕ)
      → unpaid d.pacer ≡ n
      → (advance c t3 (
          advance c t2 (
            goto
              (if ltb 0 (unpaid d.pacer) then emitting halted (unpaid d.pacer) else closing halted)
              (g, d)))).1.at
        ≡ sweep_end d.sweep_attempts n
            (emit_settlement_cheque (order c (unpaid d.pacer)) t2.peer g.books).1
  settled-end zero u =
      let nothing : ltb 0 (unpaid d.pacer) ≡ false = ground (arith, u) in
      rw nothing (advance-ended c t3 0 (advance c t2 (goto (closing halted) (g, d))) (clear u))
  settled-end (suc n) u =
      let something : ltb 0 (unpaid d.pacer) ≡ true = ground (arith, u) in
      rw something (
        unfold advance in
        paid-end (emit_settlement_cheque (order c (unpaid d.pacer)) t2.peer g.books)
          (omega (arith, u))
        ∙ ends n u (emit_settlement_cheque (order c (unpaid d.pacer)) t2.peer g.books).1)
    where
      ends :
          (m : ℕ)
          → unpaid d.pacer ≡ suc m
          → (r : Result Error Outcome)
          → elim r [
            | ok o ↦ returned 0
            | err e ↦ if ltb (d.sweep_attempts + 1) 3 then head else returned (unpaid d.pacer)
          ]
            ≡ sweep_end d.sweep_attempts (suc m) r
      ends m v (ok o) = refl
      ends m v (err e) = ap (λ k. if ltb (d.sweep_attempts + 1) 3 then head else returned k) v

  -- A finishing connection without tasks that comes to settle when a cheque is due takes three more of
  -- its own steps, whatever the peer does: if nothing was unpaid, or its cheque for the unpaid debt
  -- goes through, it has returned with nothing unpaid; if that cheque fails for the first or second
  -- time, it is back at the head of its loop, and for the third time it has returned, with the debt
  -- unpaid.
  pub advance-sweep_end :
      d.at ≡ settling halted
      → due d.pacer.last_cheque cheque_min_interval t1.now ≡ true
      → (advance c t3 (advance c t2 (advance c t1 (g, d)))).1.at
        ≡ sweep_end d.sweep_attempts
            (unpaid d.pacer)
            (emit_settlement_cheque (order c (unpaid d.pacer)) t2.peer g.books).1
  advance-sweep_end at_settle is_due =
      ap (λ s. (advance c t3 (advance c t2 s)).1.at)
        (advance-settling c t1 halted g d at_settle ∙ settle-final c t1.now halted g d f is_due)
      ∙ settled-end (unpaid d.pacer) refl
