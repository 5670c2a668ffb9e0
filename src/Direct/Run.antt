-- ===== src/Direct/Run.antt =====
-- The invariant through the settlement's own steps and all that happens between them.
use mathlib.Core.Path.{subst}
use directswarm.Base.{ℕ, ◌<◌, ◌≡◌, refl, List, [], ◌∷◌, arith, u64_max, Bool, false}
use directswarm.Ledger.{Ledger, cumulative_for}
use directswarm.Direct.{
  Accounting, Terms, At, waiting, woken, refreshing, deciding, checking, lost, weighing, emitting,
  measuring, ended, Probe, started,
}
use directswarm.Direct.Loop.{
  goto, wake, Turn, advance, Event, own, asks, fetch_ends, credits_on, hang_up, step, run, lose,
}
use directswarm.Direct.Invariant.{
  Known, Sound, look-Sound, weigh-Sound, check-Sound, measure-Sound, refreshed-Sound,
}
use directswarm.Direct.Emission.{emitted-Sound}
use directswarm.Direct.Tasks.{ask-Sound, fetch_ended-Sound, credit_ended-Sound, Known-of}

module _ {A : Type 0} (acc : Accounting A) (t : Terms) (capped : t.max_issue_plur < u64_max)
    (wide : t.reserve_cap < u64_max) where
  waiting-Sound :
      (paid : ℕ) (notified : Bool) (s : Probe A)
      → Known t s waiting
      → Sound acc t paid s
      → Sound acc t paid (wake acc t notified s)
  waiting-Sound paid notified s k h = ground arith

  deciding-Sound :
      (paid : ℕ) (s : Probe A)
      → Known t s deciding
      → Sound acc t paid s
      → Sound acc t paid (goto acc t (weighing (acc.balance s.acct)) s)
  deciding-Sound paid s k h = ground arith

  lost-Sound :
      (paid balance : ℕ) (s : Probe A)
      → Known t s (lost balance)
      → Sound acc t paid s
      → Sound acc t paid (lose acc t balance s)
  lost-Sound paid balance s k h = ground arith

  advance-Sound :
      (paid : ℕ) (turn : Turn) (s : Probe A)
      → Sound acc t paid s
      → Sound acc t paid (advance acc t turn s)
  unfolding advance
  advance-Sound paid turn s h = go s.at refl
    where
      at_place : {a : At} → s.at ≡ a → Known t s a
      at_place e = subst (Known t s) e h.known

      go : (a : At) → s.at ≡ a → Sound acc t paid (advance acc t turn s)
      go waiting e = rw (e, advance) (waiting-Sound paid turn.notified s (at_place e) h)
      go woken e = rw (e, advance) (look-Sound acc t paid turn.now s (at_place e) h)
      go refreshing e =
          rw (e, advance) (refreshed-Sound acc t paid turn.reply turn.now s (at_place e) h)
      go deciding e = rw (e, advance) (deciding-Sound paid s (at_place e) h)
      go checking e = rw (e, advance) (check-Sound acc t paid s (at_place e) h)
      go (lost balance) e = rw (e, advance) (lost-Sound paid balance s (at_place e) h)
      go (weighing debt) e = rw (e, advance) (weigh-Sound acc t paid debt s (at_place e) h)
      go (emitting units) e =
          rw (e, advance)
            (emitted-Sound acc t paid capped (omega arith) units turn.peer s (at_place e) h)
      go (measuring balance) e = rw (e, advance) (measure-Sound acc t paid balance s (at_place e) h)
      go (ended reason) e = rw (e, advance) h

  hang_up-Sound :
      (paid : ℕ) (s : Probe A) → Sound acc t paid s → Sound acc t paid (record s { alive = false })
  hang_up-Sound paid s h = record {
    held = h.held;
    guarded = h.guarded;
    piped = h.piped;
    covered = h.covered;
    small = h.small;
    capped = h.capped;
    counted = h.counted;
    booked = h.booked;
    known =
        Known-of acc t paid s (record s { alive = false }) s.at (omega arith) refl refl (λ e. refl)
          h.known;
  }

  step-Sound :
      (paid : ℕ) (e : Event) (s : Probe A) → Sound acc t paid s → Sound acc t paid (step acc t e s)
  unfolding step
  step-Sound paid (own turn) s h = advance-Sound paid turn s h
  step-Sound paid (asks addr saw_alive) s h = ask-Sound acc t paid addr saw_alive s wide h
  step-Sound paid (fetch_ends i served) s h = fetch_ended-Sound acc t paid i served s h
  step-Sound paid (credits_on i) s h = credit_ended-Sound acc t paid i s (omega arith) h
  step-Sound paid hang_up s h = hang_up-Sound paid s h

  run_from-Sound :
      (paid : ℕ) (es : List Event) (s : Probe A)
      → Sound acc t paid s
      → Sound acc t paid (run acc t es s)
  unfolding run
  run_from-Sound paid [] s h = h
  run_from-Sound paid (e ∷ es) s h = run_from-Sound paid es (step acc t e s) (step-Sound paid e s h)

  -- With a spend cap and a reserve cap below the largest word, and an account that owes and reserves
  -- nothing at the start: after any steps of the settlement, attempts to reserve, ended fetches,
  -- credits and a hang-up, in any order, the debt and the reservations together are within the reserve
  -- cap, the reservations are the prices of the fetches in flight, which the pipeline bounds, the
  -- pending units are those of the cheques not yet credited and within the reserve cap, what was paid is
  -- within the spend cap, is what the summary reports and is by how much the beneficiary's cumulative
  -- went up; a sweep ends only after the settlement was told that the fetches are over, and
  -- reports no residual debt.
  pub run-Sound :
      (a : A) (l : Ledger)
      → acc.balance a ≡ 0
      → acc.reserved a ≡ 0
      → (es : List Event)
      → Sound acc t (cumulative_for l t.beneficiary) (run acc t es (started a l))
  run-Sound a l owes holds es =
      run_from-Sound (cumulative_for l t.beneficiary) es (started a l) (ground arith)
