-- ===== src/Growth/Covered.antt =====
-- The growth probe up to its final sweep: the room that is left for the sweep's cheque.
use mathlib.Core.Path.{subst}
use native.Mathlib.Nat.{add_assoc}
use directswarm.Base.{
  ℕ, ◌+◌, ◌*◌, ◌/◌, ◌^◌, ◌≤◌, ◌<◌, ◌≡◌, ◌≢◌, refl, sym, ap, inl, inr, not, ◌&&◌, ◌||◌, List, [],
  ◌∷◌, Option, some, >>=-eq-some, ltb, arith, Bool-cases, u64_max, take, All,
}
use directswarm.Base.Results.{err}
use directswarm.Swarm.{SwarmAddress}
use directswarm.Pacer.{default_rate}
use directswarm.Cheque.{spend_guard, Peer, Books, emit_settlement_cheque}
use directswarm.Cheque.Unguarded.{emit-ne-guard}
use directswarm.Growth.{Terms, connected, order}
use directswarm.Growth.Phase.{PhaseMode, growth, Phase, begin_phase, Event, run, seconds}
use directswarm.Growth.Sample.{Sample}
use directswarm.Growth.Run.{
  GrowthOptions, World, observe, Attempt, Script, Progress, whole_phase, grow, sample_step,
  sample_all, prepay_once, at_ceiling, phases, residual,
}
use directswarm.Growth.Room.{over, HasRate, deduction_of, Room, spend_less, Room-weaken}
use directswarm.Growth.Room.Cheques.{prepay-Room}
use directswarm.Growth.Bound.{Fits, Inv}
use directswarm.Growth.Bound.Run.{deducted, Announces, run-Inv}
use directswarm.Growth.Calm.{Calm, Same-Room, Calm-weaken, lambda_sample-Calm}

abbrev pub samples_deducted : List (World × Sample) → ℕ
samples_deducted [] = 0
samples_deducted ((w, x) ∷ rest) = deduction_of x.peer + samples_deducted rest

-- What all the cheques before the sweep may cost beyond the rate.
abbrev pub deductions : GrowthOptions → Script → ℕ
deductions o x =
    deducted x.growth_events
    + (samples_deducted (take o.lambda_samples x.samples)
        + (deduction_of x.prepayment.peer + deducted x.ceiling_events))

-- The peer announces one rate throughout.
abbrev pub AnnouncesAll : ℕ → GrowthOptions → Script → Type 0
AnnouncesAll r o x =
    All (Announces r) x.growth_events
    × All (λ s. HasRate r s.1.peer) (take o.lambda_samples x.samples)
    × HasRate r x.prepayment.peer
    × All (Announces r) x.ceiling_events

same_conn : (a b : Progress) → some a ≡ some b → a.conn ≡ b.conn
same_conn a b e = ground arith

whole_phase-run :
    (t : Terms) (mode : PhaseMode) (wall_cap now : ℕ) (es : List Event) (s : Progress) (p : Phase)
    → whole_phase t mode wall_cap now es s ≡ some p
    → p ≡ run t mode wall_cap es (begin_phase s.conn s.cycle_idx now)
unfolding whole_phase
whole_phase-run t mode wall_cap now es s p e = ground arith

module _ (t : Terms) (r : ℕ) (capped : t.max_issue_plur < u64_max) (low : r ≤ default_rate)
    (cheap : (a : SwarmAddress) → t.price a ≤ 2 ^ 62) where
  whole_phase-Inv :
      (mode : PhaseMode) (bound wall_cap now : ℕ) (es : List Event) (s : Progress) (p : Phase)
      → All (Announces r) es
      → Room t r bound s.conn
      → Fits mode s.conn
      → t.max_issue_plur * 92 / 100 ≤ bound
      → whole_phase t mode wall_cap now es s ≡ some p
      → Inv t r mode (bound + deducted es) p
  whole_phase-Inv mode bound wall_cap now es s p a h f much e =
      subst (Inv t r mode (bound + deducted es))
        (sym (whole_phase-run t mode wall_cap now es s p e))
        (run-Inv t r mode capped low cheap bound wall_cap now s.cycle_idx es s.conn a h f much)

  grow-Calm :
      (bound : ℕ) (o : GrowthOptions) (x : Script) (s s' : Progress)
      → All (Announces r) x.growth_events
      → t.max_issue_plur * 92 / 100 ≤ bound
      → Calm t r bound s.conn
      → grow t o x s ≡ some s'
      → Calm t r (bound + deducted x.growth_events) s'.conn
  unfolding grow
  grow-Calm bound o x s s' a much h e = elim (Bool-cases (ltb 0 o.growth_secs)) [
    | inr off ↦
        let same = same_conn s s' (rw off at e) in
        subst (Calm t r (bound + deducted x.growth_events)) same
          (Calm-weaken t r bound (deducted x.growth_events) s.conn h)
    | inl on ↦
        let (p, ran, ended) = >>=-eq-some _ _ (rw on at e) in
        let inv =
          whole_phase-Inv growth bound (seconds o.growth_secs) x.growth_at x.growth_events s p a h.0
            h.1 much ran in
        subst (Calm t r (bound + deducted x.growth_events)) (same_conn _ s' ended)
          (inv.room, inv.fits)
  ]

  sample_all-Calm :
      (bound : ℕ) (xs : List (World × Sample)) (s : Progress)
      → All (λ y. HasRate r y.1.peer) xs
      → t.max_issue_plur * 92 / 100 ≤ bound
      → Calm t r bound s.conn
      → Calm t r (bound + samples_deducted xs) (sample_all t xs s).conn
  unfolding sample_all
  sample_all-Calm bound [] s a much h = Calm-weaken t r bound 0 s.conn h
  sample_all-Calm bound ((w, x) ∷ rest) s (honest, a) much h =
      let c = observe w s.conn in
      let seen : Calm t r bound c =
        (Same-Room t r bound s.conn c (refl, refl, refl, refl) h.0, h.1) in
      elim (Bool-cases (not c.alive || s.spend_capped)) [
        | inl over_now ↦
            rw over_now (Calm-weaken t r bound (deduction_of x.peer + samples_deducted rest) c seen)
        | inr on ↦
            let sampled =
              lambda_sample-Calm t r capped cheap low bound x c s.cycle_idx honest much seen in
            let later =
              sample_all-Calm (bound + deduction_of x.peer) rest
                (sample_step t x (record s { conn = c })) a (omega (arith, much)) sampled in
            rw on (
              subst
                (λ b. Calm t r b (sample_all t rest (sample_step t x (record s { conn = c }))).conn)
                (add_assoc bound (deduction_of x.peer) (samples_deducted rest)) later)
      ]

  prepay_once-Room :
      (bound : ℕ) (o : GrowthOptions) (y : Attempt) (s : Progress)
      → HasRate r y.peer
      → o.prepay_units ≤ 2 ^ 62
      → Calm t r bound s.conn
      → Room t r (bound + deduction_of y.peer) (prepay_once t o y s).conn
  unfolding prepay_once
  prepay_once-Room bound o y s honest few h =
      let c = observe y.world s.conn in
      let seen = Same-Room t r bound s.conn c (refl, refl, refl, refl) h.0 in
      elim (Bool-cases (ltb 0 o.prepay_units && c.alive && not s.spend_capped)) [
        | inl on ↦
            rw on
              (prepay-Room t r low y.peer honest o.prepay_units capped bound y.now c h.1 few seen)
        | inr off ↦ rw off (Room-weaken t r bound (deduction_of y.peer) c seen)
      ]

  at_ceiling-Room :
      (bound : ℕ) (o : GrowthOptions) (x : Script) (s s' : Progress)
      → All (Announces r) x.ceiling_events
      → t.max_issue_plur * 92 / 100 ≤ bound
      → Room t r bound s.conn
      → at_ceiling t o x s ≡ some s'
      → Room t r (bound + deducted x.ceiling_events) s'.conn
  unfolding at_ceiling
  at_ceiling-Room bound o x s s' a much h e =
      elim (Bool-cases (ltb 0 o.ceiling_secs && s.conn.alive && not s.spend_capped)) [
        | inr off ↦
            subst (Room t r (bound + deducted x.ceiling_events)) (same_conn s s' (rw off at e))
              (Room-weaken t r bound (deducted x.ceiling_events) s.conn h)
        | inl on ↦
            let (p, ran, ended) = >>=-eq-some _ _ (rw on at e) in
            let inv =
              whole_phase-Inv _ bound (seconds o.ceiling_secs) x.ceiling_at x.ceiling_events s p a h
                tt much ran in
            subst (Room t r (bound + deducted x.ceiling_events)) (same_conn _ s' ended) inv.room
      ]

  connected-Calm :
      (b : Books) (first : Option ℕ)
      → b.issued_plur ≡ 0
      → Calm t r (t.max_issue_plur * 92 / 100) (connected b first)
  unfolding connected
  connected-Calm b first z = (omega (arith, z, low), refl)

  phases-Room :
      (o : GrowthOptions) (x : Script) (b : Books) (first : Option ℕ) (s : Progress)
      → AnnouncesAll r o x
      → o.prepay_units ≤ 2 ^ 62
      → b.issued_plur ≡ 0
      → phases t o x (connected b first) ≡ some s
      → Room t r (t.max_issue_plur * 92 / 100 + deductions o x) s.conn
  unfolding phases
  phases-Room o x b first s (a, samples_honest, honest, cs) few z e =
      let most : ℕ = t.max_issue_plur * 92 / 100 in
      let (grown, e1, e2) = >>=-eq-some _ _ e in
      let calm = grow-Calm most o x _ grown a (omega arith) (connected-Calm b first z) e1 in
      let sampled =
        sample_all-Calm (most + deducted x.growth_events) (take o.lambda_samples x.samples) grown
          samples_honest (omega arith) calm in
      let prepaid =
        prepay_once-Room _ o x.prepayment (sample_all t (take o.lambda_samples x.samples) grown)
          honest few sampled in
      let done = at_ceiling-Room _ o x _ s cs (omega arith) prepaid e2 in
      let total : most
            + deducted x.growth_events
            + samples_deducted (take o.lambda_samples x.samples)
            + deduction_of x.prepayment.peer
            + deducted x.ceiling_events
          ≡ most + deductions o x =
        omega arith in
      subst (λ n. Room t r n s.conn) total done

  -- Let the peer announce one rate, at most the default, in every cheque of the run, let prices and
  -- the prepayment be at most 2^62 units and the cap below the largest word. Then, whatever the
  -- tasks, the clock and the peer do, when growth, samples, prepayment and ceiling are over and
  -- something is still owed, the final sweep's cheque does not fail at the spend guard, provided
  -- that the deductions of all cheques, its own included, fit into the 8 % that the fetch gate
  -- leaves.
  pub sweep_is_covered :
      (o : GrowthOptions) (x : Script) (b : Books) (first : Option ℕ) (s : Progress) (peer : Peer)
      → AnnouncesAll r o x
      → HasRate r peer
      → o.prepay_units ≤ 2 ^ 62
      → b.issued_plur ≡ 0
      → t.max_issue_plur * 92 / 100 + deductions o x + deduction_of peer ≤ t.max_issue_plur
      → phases t o x (connected b first) ≡ some s
      → 0 < residual s.conn
      → (emit_settlement_cheque (order t (residual s.conn)) peer s.conn.books).1 ≢ err spend_guard
  sweep_is_covered o x b first s peer all honest few z fits e owes =
      let room = phases-Room o x b first s all few z e in
      emit-ne-guard (order t (residual s.conn)) peer s.conn.books room.issued capped (λ quote a.
        let same : quote.0 ≡ r = rw a at honest in
        let taken : deduction_of peer ≡ quote.1 = rw a refl in
        let owed =
          spend_less s.conn.books.issued_plur (residual s.conn) (over s.conn) r _ (omega arith)
            (room.spend (omega arith)) in
        omega (arith, owed, taken, ap (λ n. n * residual s.conn) same))
