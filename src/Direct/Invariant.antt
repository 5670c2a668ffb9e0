-- ===== src/Direct/Invariant.antt =====
-- What holds of a probed storer at every step: the cap of the mirror, the pipeline, the cheques in
-- flight and the money of the run.
use directswarm.Base.{ℕ, ◌+◌, ◌≤◌, ◌≡◌, true, false, Option, none, some, arith, length, total}
use directswarm.Ledger.{cumulative_for}
use directswarm.Direct.{
  Accounting, Terms, Stage, swept, hung_up, unpaid, At, woken, refreshing, checking, lost, weighing,
  emitting, measuring, ended, Probe,
}
use directswarm.Direct.Loop.{look, refreshed, weigh, check, measure}

-- What is known where the settlement stands. No debt is written down before the end, and the end of a
-- sweep writes down none.
abbrev pub Known : {A : Type 0} → Terms → Probe A → At → Type 0
Known t s (weighing debt) = (debt ≤ t.reserve_cap) × (s.summary.residual_debt_units ≡ 0)
Known t s (emitting units) =
    (units + s.pending ≤ t.reserve_cap) × (s.summary.residual_debt_units ≡ 0)
Known t s (ended hung_up) = s.alive ≡ false
Known t s (ended unpaid) = s.finishing ≡ true
Known t s (ended swept) = (s.finishing ≡ true) × (s.summary.residual_debt_units ≡ 0)
Known t s (lost balance) = (s.alive ≡ false) × (s.summary.residual_debt_units ≡ 0)
Known t s (measuring balance) = (s.finishing ≡ true) × (s.summary.residual_debt_units ≡ 0)
Known t s _ = s.summary.residual_debt_units ≡ 0

module _ {A : Type 0} (acc : Accounting A) (t : Terms) (paid : ℕ) where
  -- The debt and the reservations stay within the cap, the reservations are those of the fetches in
  -- flight, which the pipeline bounds; the pending units are those of the tasks that will take them off;
  -- the counter is within the spend cap, is what the summary says was paid, and is by how much the
  -- ledger went up from what was paid before.
  pub record Sound (s : Probe A) : Type 0 where
    pub held : acc.balance s.acct + acc.reserved s.acct ≤ t.reserve_cap
    pub guarded : acc.reserved s.acct ≡ total (λ price. price) s.fetches
    pub piped : length s.fetches ≤ t.pipeline_depth
    pub covered : s.pending ≡ total (λ (c : Stage × ℕ). c.1) s.credits
    pub small : s.pending ≤ t.reserve_cap
    pub capped : s.issued_plur ≤ t.max_issue_plur
    pub counted : s.summary.cheque_plur ≡ s.issued_plur
    pub booked : cumulative_for s.ledger t.beneficiary ≡ paid + s.issued_plur
    pub known : Known t s s.at

  pub look-Sound : (now : ℕ) (s : Probe A) → Known t s woken → Sound s → Sound (look acc t now s)
  unfolding look
  look-Sound now s k h = ground arith

  pub weigh-Sound :
      (debt : ℕ) (s : Probe A) → Known t s (weighing debt) → Sound s → Sound (weigh acc t debt s)
  unfolding weigh
  weigh-Sound debt s k h = ground arith

  pub check-Sound : (s : Probe A) → Known t s checking → Sound s → Sound (check acc t s)
  check-Sound s k h = ground arith

  pub measure-Sound :
      (balance : ℕ) (s : Probe A)
      → Known t s (measuring balance)
      → Sound s
      → Sound (measure acc t balance s)
  unfolding measure
  measure-Sound balance s k h = ground arith

  pub refreshed-Sound :
      (reply : Option ℕ) (now : ℕ) (s : Probe A)
      → Known t s refreshing
      → Sound s
      → Sound (refreshed acc t reply now s)
  unfolding refreshed
  refreshed-Sound none now s k h = ground arith
  refreshed-Sound (some n) now s k h =
      ground (arith, acc.balance-credit s.acct n, acc.reserved-credit s.acct n)
