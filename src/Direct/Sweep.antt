-- ===== src/Direct/Sweep.antt =====
-- The last sweep of the settlement, once the fetches are over.
use mathlib.Core.Path.{subst}
use directswarm.Base.{
  ℕ, suc, ◌-◌, ◌≤◌, ◌≡◌, refl, ap, true, false, List, [], ◌∷◌, map, length, Option, none, some,
  arith,
}
use directswarm.Base.Results.{Result, ok, err}
use directswarm.Cheque.{Error, Peer, Books, Outcome}
use directswarm.Direct.{
  Accounting, Terms, swept, hung_up, unpaid, At, waiting, woken, refreshing, deciding, checking,
  lost, weighing, emitting, measuring, ended, Probe, kept_if_sent, emit_cheque_at_rate,
}
use directswarm.Direct.Loop.{
  look, refreshed, weigh, emitted, check, measure, lose, Turn, advance, own, step, run,
}

-- The own steps that are left of a sweep.
abbrev left : At → ℕ
left waiting = 8
left woken = 7
left refreshing = 6
left deciding = 5
left (weighing debt) = 4
left (emitting units) = 3
left checking = 2
left (measuring balance) = 1
left (lost balance) = 1
left (ended reason) = 0

module _ {A : Type 0} (acc : Accounting A) (t : Terms) where
  -- The debt that no cheque in flight covers.
  abbrev pub uncovered : Probe A → ℕ
  uncovered s = acc.balance s.acct - s.pending

  -- What was read still holds; after the cheque nothing is uncovered; what is reported is what is left.
  abbrev Read : Probe A → At → Type 0
  Read s (weighing debt) = debt ≡ acc.balance s.acct
  Read s (emitting units) = units ≡ uncovered s
  Read s checking = uncovered s ≡ 0
  Read s (measuring balance) = (balance ≡ acc.balance s.acct) × (uncovered s ≡ 0)
  Read s (lost balance) = (balance ≡ acc.balance s.acct) × (s.alive ≡ false)
  Read s (ended swept) = (s.summary.residual_debt_units ≡ 0) × (uncovered s ≡ 0)
  Read s (ended hung_up) = (s.summary.residual_debt_units ≡ uncovered s) × (s.alive ≡ false)
  Read s (ended unpaid) = s.summary.residual_debt_units ≡ uncovered s
  Read s _ = Unit {0}

  -- The settlement has ended, and says what it leaves.
  abbrev pub IsOver : Probe A → At → Type 0
  IsOver s (ended reason) = Read s (ended reason)
  IsOver s _ = ⊥

  record Sweeping (n : ℕ) (s : Probe A) : Type 0 where
    pub finishing : s.finishing ≡ true
    pub left : left s.at ≤ n
    pub read : Read s s.at

  look-Sweeping : (now : ℕ) (s : Probe A) → s.finishing ≡ true → Sweeping 6 (look acc t now s)
  unfolding look
  look-Sweeping now s f = ground arith

  refreshed-Sweeping :
      (reply : Option ℕ) (now : ℕ) (s : Probe A)
      → s.finishing ≡ true
      → Sweeping 5 (refreshed acc t reply now s)
  unfolding refreshed
  refreshed-Sweeping none now s f = ground arith
  refreshed-Sweeping (some n) now s f = ground arith

  weigh-Sweeping :
      (debt : ℕ) (s : Probe A)
      → s.finishing ≡ true
      → debt ≡ acc.balance s.acct
      → Sweeping 3 (weigh acc t debt s)
  unfolding weigh
  weigh-Sweeping debt s f e = ground arith

  kept-Sweeping :
      (units : ℕ) (s : Probe A) (b : Books) (r : Result Error Outcome)
      → s.finishing ≡ true
      → units ≡ uncovered s
      → Sweeping 2 (emitted acc t units (kept_if_sent s (b, r)))
  unfolding emitted kept_if_sent
  kept-Sweeping units s b (err e) f u = ground arith
  kept-Sweeping units s b (ok o) f u = ground (arith, acc.balance-credit s.acct units)

  emitted-Sweeping :
      (units : ℕ) (peer : Peer) (s : Probe A)
      → s.finishing ≡ true
      → units ≡ uncovered s
      → Sweeping 2 (emitted acc t units (emit_cheque_at_rate t peer units s))
  unfolding emit_cheque_at_rate
  emitted-Sweeping units peer s f u = kept-Sweeping units s _ _ f u

  check-Sweeping : (s : Probe A) → s.finishing ≡ true → uncovered s ≡ 0 → Sweeping 1 (check acc t s)
  check-Sweeping s f u = ground arith

  measure-Sweeping :
      (balance : ℕ) (s : Probe A)
      → s.finishing ≡ true
      → balance ≡ acc.balance s.acct
      → uncovered s ≡ 0
      → Sweeping 0 (measure acc t balance s)
  unfolding measure
  measure-Sweeping balance s f e u = ground arith

  lose-Sweeping :
      (balance : ℕ) (s : Probe A)
      → s.finishing ≡ true
      → Read s (lost balance)
      → Sweeping 0 (lose acc t balance s)
  lose-Sweeping balance s f (e, dead) = ground arith

  looser : (n m : ℕ) (s : Probe A) → n ≤ m → Sweeping n s → Sweeping m s
  looser n m s le h = record {
    finishing = h.finishing;
    left = omega (arith, h.left);
    read = h.read;
  }

  advance-Sweeping :
      (n : ℕ) (turn : Turn) (s : Probe A) → Sweeping (suc n) s → Sweeping n (advance acc t turn s)
  unfolding advance
  advance-Sweeping n turn s h = go s.at refl
    where
      at_place : {a : At} → s.at ≡ a → Read s a
      at_place e = subst (Read s) e h.read

      still : {a : At} (k : ℕ) → s.at ≡ a → left a ≡ suc k → k ≤ n
      still k e l = omega (arith, ap left e, h.left)

      go : (a : At) → s.at ≡ a → Sweeping n (advance acc t turn s)
      go waiting e =
          rw (e, advance)
            (record { finishing = rw h.finishing refl; left = still 7 e refl; read = tt })
      go woken e =
          rw (e, advance) (looser 6 n _ (still 6 e refl) (look-Sweeping turn.now s h.finishing))
      go refreshing e =
          rw (e, advance)
            (looser 5 n _ (still 5 e refl) (refreshed-Sweeping turn.reply turn.now s h.finishing))
      go deciding e =
          rw (e, advance) (record { finishing = h.finishing; left = still 4 e refl; read = refl })
      go (weighing debt) e =
          rw (e, advance)
            (looser 3 n _ (still 3 e refl) (weigh-Sweeping debt s h.finishing (at_place e)))
      go (emitting units) e =
          rw (e, advance)
            (looser 2 n _ (still 2 e refl)
              (emitted-Sweeping units turn.peer s h.finishing (at_place e)))
      go checking e =
          rw (e, advance)
            (looser 1 n _ (still 1 e refl) (check-Sweeping s h.finishing (at_place e)))
      go (measuring balance) e =
          let (same, none_left) = at_place e in
          rw (e, advance)
            (looser 0 n _ (still 0 e refl) (measure-Sweeping balance s h.finishing same none_left))
      go (lost balance) e =
          rw (e, advance)
            (looser 0 n _ (still 0 e refl) (lose-Sweeping balance s h.finishing (at_place e)))
      go (ended reason) e =
          rw (e, advance)
            (record { finishing = h.finishing; left = rw e (omega arith); read = h.read })

  sweep-IsOver :
      (turns : List Turn) (s : Probe A)
      → Sweeping (length turns) s
      → IsOver (run acc t (map own turns) s) (run acc t (map own turns) s).at
  unfolding run step
  sweep-IsOver [] s h = go s.at h.left h.read
    where
      go : (a : At) → left a ≤ 0 → Read s a → IsOver s a
      go (ended reason) l k = k
      go waiting l k = absurd (omega (arith, l))
      go woken l k = absurd (omega (arith, l))
      go refreshing l k = absurd (omega (arith, l))
      go deciding l k = absurd (omega (arith, l))
      go checking l k = absurd (omega (arith, l))
      go (lost balance) l k = absurd (omega (arith, l))
      go (weighing debt) l k = absurd (omega (arith, l))
      go (emitting units) l k = absurd (omega (arith, l))
      go (measuring balance) l k = absurd (omega (arith, l))
  sweep-IsOver (turn ∷ turns) s h =
      sweep-IsOver turns (advance acc t turn s) (advance-Sweeping (length turns) turn s h)

  wake-Sweeping :
      (n : ℕ) (turn : Turn) (s : Probe A)
      → s.at ≡ waiting
      → turn.notified ≡ true
      → 7 ≤ n
      → Sweeping n (advance acc t turn s)
  unfolding advance
  wake-Sweeping n turn s e notified long =
      rw (e, advance) (record { finishing = ground arith; left = long; read = tt })

  -- A waiting settlement that is told that the fetches are over and then takes at least seven more steps
  -- of its own, with nothing else in between, has ended, whatever the peer answers: either all debt is
  -- covered by cheques and none is reported, or the connection is not alive or the last cheque failed
  -- and the reported residual is the debt that no cheque covers.
  pub notified-IsOver :
      (turn : Turn) (turns : List Turn) (s : Probe A)
      → s.at ≡ waiting
      → turn.notified ≡ true
      → 7 ≤ length turns
      → IsOver (run acc t (map own (turn ∷ turns)) s) (run acc t (map own (turn ∷ turns)) s).at
  unfolding run step
  notified-IsOver turn turns s e notified long =
      sweep-IsOver turns (advance acc t turn s)
        (wake-Sweeping (length turns) turn s e notified long)
