-- ===== src/Dispatch/Critical.antt =====
-- Which bucket the dispatcher chooses, and which it tries again.
use mathlib.Core.Path.{subst}
use directswarm.Base.{
  ℕ, ◌≤◌, ◌≡◌, refl, ap, sym, ◌∙◌, false, List, [], ◌∷◌, Option, none, some, arith, ◌==◌, ==_iff,
  is_empty, nat_eq, keys, ltb, ◌⊎◌, inl, inr, Bool-cases, Option-cases, lookup_or, lookup_or-cons,
  lookup,
}
use directswarm.Dispatch.{
  Member, Pool, Dispatch, unused, criticality, better, best_of, dial, dial_best, refilled,
  next_member,
}

abbrev In : ℕ → List ℕ → Type 0
In q [] = ⊥
In q (p ∷ ps) = (p ≡ q) ⊎ In q ps

-- A choice that is at least as critical as every bucket of a set.
abbrev Chosen : Pool → Dispatch → Option (ℕ × ℕ) → (ℕ → Type 0) → Type 0
Chosen pool d none S = (q : ℕ) → S q → criticality pool d q ≡ none
Chosen pool d (some (crit, p)) S =
    (criticality pool d p ≡ some crit)
    × ((q c : ℕ) → S q → criticality pool d q ≡ some c → c ≤ crit)

better-Chosen :
    (pool : Pool) (d : Dispatch) (best : Option (ℕ × ℕ)) (S : ℕ → Type 0) (p : ℕ) (o : Option ℕ)
    → criticality pool d p ≡ o
    → Chosen pool d best S
    → Chosen pool d (better best o p) (λ q. S q ⊎ (p ≡ q))
unfolding better
better-Chosen pool d none S p none e h =
    λ q m. elim m [ inl s ↦ h q s | inr same ↦ ap (criticality pool d) (sym same) ∙ e ]
better-Chosen pool d none S p (some c) e h =
    (e, λ q k m f. elim m [ inl s ↦ let n = h q s in absurd (cc) | inr same ↦ at_most q k same f ])
  where
    at_most : (q k : ℕ) → p ≡ q → criticality pool d q ≡ some k → k ≤ c
    at_most q k same f = let g = ap (criticality pool d) same in ground arith
better-Chosen pool d (some (crit, r)) S p none e h = (
  h.0,
  λ q k m f. elim m [
    | inl s ↦ h.1 q k s f
    | inr same ↦ let g = ap (criticality pool d) same in absurd (cc)
  ],
)
better-Chosen pool d (some (crit, r)) S p (some c) e h = elim (Bool-cases (ltb crit c)) [
  | inl more ↦ rw more (
    e,
    λ q k m f. elim m [
      | inl s ↦ let n = h.1 q k s f in ground arith
      | inr same ↦ let g = ap (criticality pool d) same in ground arith
    ],
  )
  | inr less ↦ rw less (
    h.0,
    λ q k m f. elim m [
      | inl s ↦ h.1 q k s f
      | inr same ↦ let g = ap (criticality pool d) same in ground arith
    ],
  )
]

widen :
    (pool : Pool) (d : Dispatch) (best : Option (ℕ × ℕ)) (S T : ℕ → Type 0)
    → ((q : ℕ) → T q → S q)
    → Chosen pool d best S
    → Chosen pool d best T
widen pool d none S T f h = λ q t. h q (f q t)
widen pool d (some (crit, p)) S T f h = (h.0, λ q c t. h.1 q c (f q t))

best_of-Chosen :
    (pool : Pool) (d : Dispatch) (best : Option (ℕ × ℕ)) (S : ℕ → Type 0) (ps : List ℕ)
    → Chosen pool d best S
    → Chosen pool d (best_of pool d best ps) (λ q. S q ⊎ In q ps)
unfolding best_of
best_of-Chosen pool d best S [] h =
    widen pool d best S (λ q. S q ⊎ ⊥) (λ q m. elim m [ inl s ↦ s | inr no_one ↦ absurd no_one ]) h
best_of-Chosen pool d best S (p ∷ ps) h =
    widen pool d (best_of pool d (better best (criticality pool d p) p) ps)
      (λ q. (S q ⊎ (p ≡ q)) ⊎ In q ps) (λ q. S q ⊎ In q (p ∷ ps)) regroup
      (best_of-Chosen pool d (better best (criticality pool d p) p) (λ q. S q ⊎ (p ≡ q)) ps
        (better-Chosen pool d best S p (criticality pool d p) refl h))
  where
    regroup : (q : ℕ) → S q ⊎ In q (p ∷ ps) → (S q ⊎ (p ≡ q)) ⊎ In q ps
    regroup q (inl s) = inl (inl s)
    regroup q (inr (inl same)) = inl (inr same)
    regroup q (inr (inr i)) = inr i

lookup_or-In :
    (q : ℕ) (m : List (ℕ × List Member)) → is_empty (lookup_or [] q m) ≡ false → In q (keys m)
lookup_or-In q [] h = unfold lookup_or lookup in absurd (cc)
lookup_or-In q ((p, v) ∷ m) h = elim (Bool-cases (p == q)) [
  | inl same ↦ inl ((==_iff p q).0 same)
  | inr other ↦
      inr (lookup_or-In q m (sym (ap is_empty (lookup_or-cons [] p q v m ∙ rw other refl)) ∙ h))
]

-- A bucket that needs a member has one that is unused.
criticality-unused :
    (pool : Pool) (d : Dispatch) (q c : ℕ)
    → criticality pool d q ≡ some c
    → is_empty (unused d q) ≡ false
unfolding criticality
criticality-unused pool d q c h = ground arith

abbrev Nobody : ℕ → Type 0
Nobody q = ⊥

best-Chosen :
    (pool : Pool) (d : Dispatch)
    → Chosen pool d (best_of pool d none (keys d.cands)) (λ q. In q (keys d.cands))
best-Chosen pool d =
    widen pool d (best_of pool d none (keys d.cands)) (λ q. Nobody q ⊎ In q (keys d.cands))
      (λ q. In q (keys d.cands)) (λ q i. inr i)
      (best_of-Chosen pool d none Nobody (keys d.cands) (λ q no_one. absurd no_one))

-- The dispatcher's decision on its refilled state `d`: nothing where no bucket needs a member, and
-- otherwise the first unused member of a bucket that needs one and is as critical as any other.
pub data Decision (pool : Pool) (d : Dispatch) : Dispatch × Option Member → Type 0 where
  idle : ((q : ℕ) → criticality pool d q ≡ none) → Decision pool d (d, none)
  dials :
      (p crit : ℕ) (member : Member) (rest : List Member)
      → unused d p ≡ member ∷ rest
      → criticality pool d p ≡ some crit
      → ((q c : ℕ) → criticality pool d q ≡ some c → c ≤ crit)
      → Decision pool d ((dial d p (member ∷ rest)).0, some member)

needs-In :
    (pool : Pool) (d : Dispatch) (q c : ℕ) → criticality pool d q ≡ some c → In q (keys d.cands)
needs-In pool d q c h = lookup_or-In q d.cands (unfold unused in criticality-unused pool d q c h)

dial_best-Decision :
    (pool : Pool) (d : Dispatch) (best : Option (ℕ × ℕ))
    → Chosen pool d best (λ q. In q (keys d.cands))
    → Decision pool d (dial_best d best)
dial_best-Decision pool d none h = idle (λ q. elim (Option-cases (criticality pool d q)) [
  | inl n ↦ n
  | inr (c, e) ↦ h q (needs-In pool d q c e)
])
dial_best-Decision pool d (some (crit, p)) h = go (unused d p) refl
  where
    go : (v : List Member) → unused d p ≡ v → Decision pool d (dial d p v)
    go [] e = absurd (let f = criticality-unused pool d p crit h.0 in ground arith)
    go (member ∷ rest) e =
        subst (λ r. Decision pool d r) chosen
          (dials p crit member rest e h.0 (λ q c f. h.1 q c (needs-In pool d q c f) f))
      where
        chosen : ((dial d p (member ∷ rest)).0, some member) ≡ dial d p (member ∷ rest)
        chosen = unfold dial in refl

-- In every state and for every pool, once the exhausted buckets are refilled: the dispatcher dials
-- the first unused member of a bucket that needs one and that no other bucket is more critical
-- than,
-- or it dials nothing and changes nothing further, and then no bucket needs a member.
pub next_member-Decision :
    (pool : Pool) (d : Dispatch) → Decision pool (refilled pool d) (next_member pool d)
unfolding next_member
next_member-Decision pool d =
    dial_best-Decision pool (refilled pool d)
      (best_of pool (refilled pool d) none (keys (refilled pool d).cands))
      (best-Chosen pool (refilled pool d))
