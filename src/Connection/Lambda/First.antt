-- ===== src/Connection/Lambda/First.antt =====
-- Which zero a measured latency is the time of.
use mathlib.Core.Path.{subst}
use directswarm.Base.{
  ℕ, ◌<◌, ◌≡◌, refl, ap, sym, ◌∙◌, ◌⊎◌, inl, inr, true, false, List, [], ◌∷◌, ◌++◌, Option, none,
  some, ltb, ◌==◌, ==_iff, arith, All, Bool-cases,
}
use directswarm.Pacer.{lambda_max_ms}
use directswarm.Connection.Lambda.{Probe, lambda_probe_timeout_ms, probing}

abbrev pub HasFailed : Probe → Type 0
HasFailed p = p.accepted ≡ none

-- The next answer on the list, behind failed exchanges only, is a zero within the time.
abbrev pub Confirms : List Probe → Type 0
Confirms probes =
    (failed : List Probe) × (q : Probe) × (after : List Probe) × (probes ≡ failed ++ q ∷ after)
    × All HasFailed failed
    × (q.accepted ≡ some 0)
    × (q.begins < lambda_probe_timeout_ms)

-- The time is that of a zero whose next answer is a zero.
abbrev pub IsFirstZero : List Probe → ℕ → Type 0
IsFirstZero probes ms =
    (before : List Probe) × (p : Probe) × (rest : List Probe) × (probes ≡ before ++ p ∷ rest)
    × (p.accepted ≡ some 0)
    × (ms ≡ p.ends)
    × Confirms rest

later-Confirms :
    (p : Probe) (rest : List Probe) → p.accepted ≡ none → Confirms rest → Confirms (p ∷ rest)
later-Confirms p rest h (failed, q, after, e, all, zero_q, in_time) =
    (p ∷ failed, q, after, ap (◌∷◌ p) e, (h, all), zero_q, in_time)

later-IsFirstZero :
    (p : Probe) (rest : List Probe) (ms : ℕ) → IsFirstZero rest ms → IsFirstZero (p ∷ rest) ms
later-IsFirstZero p rest ms (before, q, after, e, zero_q, at_end, next) =
    (p ∷ before, q, after, ap (◌∷◌ p) e, zero_q, at_end, next)

-- What the loop returns when it remembers a zero, or none.
abbrev Returns : Option ℕ → List Probe → ℕ → Type 0
Returns none probes ms = (ms ≡ lambda_max_ms) ⊎ IsFirstZero probes ms
Returns (some first) probes ms =
    ((ms ≡ lambda_max_ms) ⊎ IsFirstZero probes ms) ⊎ ((ms ≡ first) × Confirms probes)

later-Returns :
    (z : Option ℕ) (p : Probe) (rest : List Probe) (ms : ℕ)
    → p.accepted ≡ none
    → Returns z rest ms
    → Returns z (p ∷ rest) ms
later-Returns none p rest ms h (inl slow) = inl slow
later-Returns none p rest ms h (inr r) = inr (later-IsFirstZero p rest ms r)
later-Returns (some f) p rest ms h (inl (inl slow)) = inl (inl slow)
later-Returns (some f) p rest ms h (inl (inr r)) = inl (inr (later-IsFirstZero p rest ms r))
later-Returns (some f) p rest ms h (inr (e, c)) = inr (e, later-Confirms p rest h c)

-- After an answer that is not a zero.
anew : (p : Probe) (rest : List Probe) (ms : ℕ) → Returns none rest ms → Returns none (p ∷ rest) ms
anew p rest ms (inl slow) = inl slow
anew p rest ms (inr r) = inr (later-IsFirstZero p rest ms r)

-- After a zero that is remembered.
remembered :
    (p : Probe) (rest : List Probe) (ms : ℕ)
    → p.accepted ≡ some 0
    → Returns (some p.ends) rest ms
    → Returns none (p ∷ rest) ms
remembered p rest ms h (inl (inl slow)) = inl slow
remembered p rest ms h (inl (inr r)) = inr (later-IsFirstZero p rest ms r)
remembered p rest ms h (inr (e, c)) = inr ([], p, rest, refl, h, e, c)

probing-Returns : (probes : List Probe) (z : Option ℕ) → Returns z probes (probing probes z)
unfolding probing
probing-Returns [] none = inl refl
probing-Returns [] (some f) = inl (inl refl)
probing-Returns (p ∷ rest) z =
    go p.accepted refl z (probing-Returns rest z) (probing-Returns rest none)
      (probing-Returns rest (some p.ends)) (Bool-cases (ltb p.begins lambda_probe_timeout_ms))
  where
    go :
        (o : Option ℕ)
        → p.accepted ≡ o
        → (z : Option ℕ) → Returns z rest (probing rest z)
        → Returns none rest (probing rest none)
        → Returns (some p.ends) rest (probing rest (some p.ends))
        → (ltb p.begins lambda_probe_timeout_ms ≡ true)
          ⊎ (ltb p.begins lambda_probe_timeout_ms ≡ false)
        → Returns z (p ∷ rest) (probing (p ∷ rest) z)
    go o e none same over zeroed (inr late) = rw (late, probing) (inl refl)
    go o e (some f) same over zeroed (inr late) = rw (late, probing) (inl (inl refl))
    go none e z same over zeroed (inl early) =
        let eq : probing (p ∷ rest) z ≡ probing rest z = rw (early, e, probing) refl in
        subst (Returns z (p ∷ rest)) (sym eq) (later-Returns z p rest (probing rest z) e same)
    go (some n) e none same over zeroed (inl early) = elim (Bool-cases (n == 0)) [
      | inl zero_n ↦
          let eq : probing (p ∷ rest) none ≡ probing rest (some p.ends) =
            rw (early, e, zero_n, probing) refl in
          subst (Returns none (p ∷ rest)) (sym eq) (
            remembered p rest (probing rest (some p.ends)) (e ∙ ap some ((==_iff n 0).0 zero_n))
              zeroed)
      | inr more ↦
          let eq : probing (p ∷ rest) none ≡ probing rest none =
            rw (early, e, more, probing) refl in
          subst (Returns none (p ∷ rest)) (sym eq) (anew p rest (probing rest none) over)
    ]
    go (some n) e (some f) same over zeroed (inl early) = elim (Bool-cases (n == 0)) [
      | inl zero_n ↦
          let eq : probing (p ∷ rest) (some f) ≡ f = rw (early, e, zero_n, probing) refl in
          subst (Returns (some f) (p ∷ rest)) (sym eq) (
            inr (
              refl,
              ([], p, rest, refl, tt, e ∙ ap some ((==_iff n 0).0 zero_n), ground (arith, early)),
            ))
      | inr more ↦
          let eq : probing (p ∷ rest) (some f) ≡ probing rest none =
            rw (early, e, more, probing) refl in
          subst (Returns (some f) (p ∷ rest)) (sym eq) (inl (anew p rest (probing rest none) over))
    ]

-- Whatever the peer answers, a measured latency is the slowest one that is allowed for, or the time
-- of a probe of which the peer accepted nothing and whose next answered probe, begun within the
-- timeout, it accepted nothing of either.
pub probing-IsFirstZero :
    (probes : List Probe)
    → (probing probes none ≡ lambda_max_ms) ⊎ IsFirstZero probes (probing probes none)
probing-IsFirstZero probes = probing-Returns probes none
