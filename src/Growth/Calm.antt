-- ===== src/Growth/Calm.antt =====
-- What a latency sample and the prepayment keep of the room under the spend cap.
use directswarm.Base.{
  ℕ, zero, suc, ◌+◌, ◌*◌, ◌/◌, ◌%◌, ◌^◌, ◌≤◌, ◌<◌, ◌≡◌, refl, ap, ◌∙◌, inl, inr, Bool, true, false,
  not, List, [], ◌∷◌, Option, none, some, ltb, arith, Bool-cases, u64_max,
}
use directswarm.Swarm.{SwarmAddress}
use directswarm.Mirror.{try_reserve}
use directswarm.Pacer.{default_rate}
use directswarm.Connection.Lambda.{Probe, lambda_probe_units, lambda_probe_timeout_ms}
use directswarm.Growth.{Terms, Conn, threshold, spend_would_exceed, emit, chunk_at}
use directswarm.Growth.Sample.{
  Round, Verdict, again, enough, peer_gone, served, build_round, go_on, build_debt, probed,
  answered, sampling, Sample, swept, sample_built, lambda_sample,
}
use directswarm.Growth.Room.{
  HasRate, deduction_of, Room, spend_would_exceed_lem, apply-Room, release-Room, try_reserve-Room,
  Room-weaken,
}
use directswarm.Growth.Room.Cheques.{emit-Keeps, emit-Room}

-- The parts of a connection that the room is about.
abbrev pub Same : Conn → Conn → Type 0
Same c c' =
    (c'.acct ≡ c.acct)
    × (c'.books ≡ c.books)
    × (c'.exchange_rate ≡ c.exchange_rate)
    × (c'.prepaid ≡ c.prepaid)

-- Room, with nothing prepaid.
abbrev pub Calm : Terms → ℕ → ℕ → Conn → Type 0
Calm t r bound c = Room t r bound c × (c.prepaid ≡ 0)

pub Same-Room :
    (t : Terms) (r bound : ℕ) (c c' : Conn) → Same c c' → Room t r bound c → Room t r bound c'
Same-Room t r bound c c' (a, b, e, p) h = record {
  small = rw a h.small;
  prepaid_small = rw p h.prepaid_small;
  issued = rw b h.issued;
  rate_low = rw e h.rate_low;
  rate_high = rw e h.rate_high;
  spend = rw (a, b, p) h.spend;
}

pub Calm-weaken :
    (t : Terms) (r bound more : ℕ) (c : Conn) → Calm t r bound c → Calm t r (bound + more) c
Calm-weaken t r bound more c (h, z) = (Room-weaken t r bound more c h, z)

answered-Same :
    (next : Option ℕ → Conn → Conn × Option ℕ) (now ends : ℕ) (accepted zero_at : Option ℕ)
    (c : Conn)
    → ((z : Option ℕ) (c' : Conn) → Same c' (next z c').0)
    → Same c (answered next now ends accepted zero_at c).0
unfolding answered
answered-Same next now ends none zero_at c h = h zero_at c
answered-Same next now ends (some zero) none c h = h (some ends) c
answered-Same next now ends (some zero) (some first) c h = (refl, refl, refl, refl)
answered-Same next now ends (some (suc n)) zero_at c h = h none (probed (suc n) c)

sampling-Same :
    (now : ℕ) (probes : List Probe) (zero_at : Option ℕ) (c : Conn)
    → Same c (sampling now probes zero_at c).0
unfolding sampling
sampling-Same now [] zero_at c = (refl, refl, refl, refl)
sampling-Same now (p ∷ rest) zero_at c = elim (Bool-cases (ltb p.begins lambda_probe_timeout_ms)) [
  | inl in_time ↦
      rw in_time
        (answered-Same (sampling now rest) now p.ends p.accepted zero_at c (sampling-Same now rest))
  | inr late ↦ rw late (refl, refl, refl, refl)
]

module _ (t : Terms) (r : ℕ) (capped : t.max_issue_plur < u64_max)
    (cheap : (a : SwarmAddress) → t.price a ≤ 2 ^ 62) where
  served-Room :
      (bound : ℕ) (serves : Bool) (price : ℕ) (c : Conn)
      → price ≤ c.acct.reserved
      → Room t r bound c
      → Room t r bound (served serves price c)
  served-Room bound true price c k h = apply-Room t r capped bound c price k h
  served-Room bound false price c k h = release-Room t r capped bound c price h

  served_prepaid :
      (serves : Bool) (price : ℕ) (c : Conn) → c.prepaid ≡ 0 → (served serves price c).prepaid ≡ 0
  served_prepaid true price c h = h
  served_prepaid false price c h = h

  build_round-Calm :
      (bound limit : ℕ) (x : Round) (c : Conn) (cycle_idx : ℕ)
      → limit ≤ u64_max
      → t.max_issue_plur * 92 / 100 ≤ bound
      → Calm t r bound c
      → Calm t r bound (build_round t limit x c cycle_idx).0.0
  unfolding build_round
  build_round-Calm bound limit x c cycle_idx word much h =
      let price = t.price (chunk_at t cycle_idx) in
      let small = cheap (chunk_at t cycle_idx) in
      let m = (try_reserve c.acct price (limit / 2)).0 in
      elim (Bool-cases (not (ltb c.acct.balance (limit * 4 % 2 ^ 64 / 10)))) [
        | inl built ↦ rw built h
        | inr less ↦ elim (Bool-cases (not x.alive)) [
          | inl gone ↦ rw (less, gone) (Same-Room t r bound c _ (refl, refl, refl, refl) h.0, h.1)
          | inr there ↦ elim (Bool-cases (spend_would_exceed t c price)) [
            | inl much_spent ↦ rw (less, there, much_spent) h
            | inr affordable ↦ elim (Bool-cases (try_reserve c.acct price (limit / 2)).1) [
              | inr refused ↦ rw (less, there, affordable, refused) h
              | inl granted ↦
                  let gate = spend_would_exceed_lem t r capped bound c price h.0 small affordable in
                  let (room, grown, kept) =
                    try_reserve-Room t r capped bound c price (limit / 2) m (omega arith)
                      (omega arith) h.0 (ap (λ b. (m, b)) granted) in
                  rw (less, there, affordable, granted)
                    (
                      served-Room bound x.serves price (record c { acct = m }) (omega arith) room,
                      served_prepaid x.serves price (record c { acct = m }) h.1,
                    )
            ]
          ]
        ]
      ]

  go_on-Calm :
      (bound : ℕ) (next : Conn → ℕ → (Conn × ℕ) × Bool) (y : (Conn × ℕ) × Verdict)
      → ((c : Conn) (i : ℕ) → Calm t r bound c → Calm t r bound (next c i).0.0)
      → Calm t r bound y.0.0
      → Calm t r bound (go_on next y).0.0
  go_on-Calm bound next ((c, i), again) on h = on c i h
  go_on-Calm bound next ((c, i), enough) on h = h
  go_on-Calm bound next ((c, i), peer_gone) on h = h

  build_debt-Calm :
      (bound limit : ℕ) (rounds : List Round) (c : Conn) (cycle_idx : ℕ)
      → limit ≤ u64_max
      → t.max_issue_plur * 92 / 100 ≤ bound
      → Calm t r bound c
      → Calm t r bound (build_debt t limit rounds c cycle_idx).0.0
  unfolding build_debt
  build_debt-Calm bound limit [] c cycle_idx word much h = h
  build_debt-Calm bound limit (x ∷ rest) c cycle_idx word much h =
      go_on-Calm bound (build_debt t limit rest) (build_round t limit x c cycle_idx)
        (λ c' i k. build_debt-Calm bound limit rest c' i word much k)
        (build_round-Calm bound limit x c cycle_idx word much h)

  module _ (low : r ≤ default_rate) where
    swept-Calm :
        (bound later : ℕ) (probes : List Probe) (x : Conn × Bool)
        → Calm t r bound x.0
        → Calm t r bound (swept later probes x).0
    unfolding swept
    swept-Calm bound later probes (c, false) h = h
    swept-Calm bound later probes (c, true) (room, none_paid) =
        let same = sampling-Same later probes none c in
        (Same-Room t r bound c _ same room, same.3 ∙ none_paid)

    sample_built-Calm :
        (bound : ℕ) (x : Sample) (y : (Conn × ℕ) × Bool)
        → HasRate r x.peer
        → Calm t r bound y.0.0
        → Calm t r (bound + deduction_of x.peer) (sample_built t x y).0.0
    unfolding sample_built
    sample_built-Calm bound x ((c, i), false) honest h =
        Calm-weaken t r bound (deduction_of x.peer) c h
    sample_built-Calm bound x ((c, i), true) honest h =
        elim (Bool-cases (ltb c.acct.balance (lambda_probe_units * 4))) [
          | inl little ↦ rw little (Calm-weaken t r bound (deduction_of x.peer) c h)
          | inr much ↦ rw much (
              swept-Calm (bound + deduction_of x.peer) x.later x.probes
                (emit t x.peer c.acct.balance x.now c)
                (
                  emit-Room t r low x.peer honest c.acct.balance capped bound x.now c
                      (omega (arith, h.1)) h.0,
                  (emit-Keeps t x.peer c.acct.balance x.now c).1 ∙ h.1,
                ))
        ]

    -- A latency sample spends at most its cheque.
    pub lambda_sample-Calm :
        (bound : ℕ) (x : Sample) (c : Conn) (cycle_idx : ℕ)
        → HasRate r x.peer
        → t.max_issue_plur * 92 / 100 ≤ bound
        → Calm t r bound c
        → Calm t r (bound + deduction_of x.peer) (lambda_sample t x c cycle_idx).0.0
    unfolding lambda_sample
    lambda_sample-Calm bound x c cycle_idx honest much h =
        sample_built-Calm bound x (build_debt t (threshold c) x.rounds c cycle_idx) honest
          (build_debt-Calm bound (threshold c) x.rounds c cycle_idx (ground arith) much h)
