-- ===== src/Dispatch/Popping.antt =====
-- `WorkPool::pop` of rust/ds-net/src/schedule.rs against the chunks of the buckets.
use mathlib.Core.Path.{subst}
use directswarm.Base.{
  Option-cases, Bool-cases, ◌==◌, length-append, ℕ, ◌+◌, ◌≡◌, ◌≢◌, ◌⊎◌, refl, ap, sym, ◌∙◌, List,
  [], ◌∷◌, ◌++◌, Option, none, some, arith, ==_iff, length, nat_eq, lookup, insert, lookup_or,
  lookup_or-insert, inl, inr,
}
use directswarm.Wire.{Bytes}
use directswarm.Dispatch.{Pool, pop, pop_back, remaining}

pop_back_lem :
    {A : Type 0} (v : List A)
    → ((v ≡ []) × ((pop_back v).1 ≡ none))
      ⊎ ((a : A) × ((pop_back v).1 ≡ some a) × (v ≡ (pop_back v).0 ++ a ∷ []))
pop_back_lem [] = inl (refl, refl)
pop_back_lem (x ∷ []) = inr (x, refl, refl)
pop_back_lem (x ∷ y ∷ v) = elim (pop_back_lem (y ∷ v)) [
  | inl (no_more, e) ↦ absurd (cc)
  | inr (a, e, split) ↦ inr (a, e, ap (◌∷◌ x) split)
]

-- A chunk is given out, or none is left.
abbrev pub Gives : Pool → ℕ → Pool × Option Bytes → Type 0
Gives pool p r =
    ((r.1 ≡ none) × (remaining pool p ≡ 0) × ((q : ℕ) → lookup_or [] q r.0 ≡ lookup_or [] q pool))
    ⊎ ((addr : Bytes) × (r.1 ≡ some addr)
        × (lookup_or [] p pool ≡ lookup_or [] p r.0 ++ addr ∷ [])
        × (remaining pool p ≡ remaining r.0 p + 1)
        × ((q : ℕ) → p ≢ q → lookup_or [] q r.0 ≡ lookup_or [] q pool))

held-none : (pool : Pool) (p : ℕ) → lookup p pool ≡ none → lookup_or [] p pool ≡ []
unfolding lookup_or
held-none pool p e = ground (arith, e)

pop-none : (pool : Pool) (p : ℕ) → lookup p pool ≡ none → Gives pool p (pop pool p)
pop-none pool p e = subst (Gives pool p) (sym shut) (inl (refl, left, λ q. refl))
  where
    shut : pop pool p ≡ (pool, none)
    shut = unfold pop in rw (e, pop) refl

    left : remaining pool p ≡ 0
    left = unfold remaining in ap length (held-none pool p e)

module _ (pool : Pool) (p : ℕ) (v : List Bytes) (e : lookup p pool ≡ some v) where
  held : lookup_or [] p pool ≡ v
  unfolding lookup_or
  held = ground (arith, e)

  pop-bucket : pop pool p ≡ (insert p (pop_back v).0 pool, (pop_back v).1)
  unfolding pop
  pop-bucket = rw (e, pop) refl

  kept : lookup_or [] p (insert p (pop_back v).0 pool) ≡ (pop_back v).0
  kept = lookup_or-insert [] p p (pop_back v).0 pool ∙ ground (arith, ==_iff p p)

  others : (q : ℕ) → p ≢ q → lookup_or [] q (insert p (pop_back v).0 pool) ≡ lookup_or [] q pool
  others q ne = lookup_or-insert [] p q (pop_back v).0 pool ∙ ground (arith, ==_iff p q)

  remaining-held : remaining pool p ≡ length v
  unfolding remaining
  remaining-held = ap length held

  remaining-kept : remaining (insert p (pop_back v).0 pool) p ≡ length (pop_back v).0
  unfolding remaining
  remaining-kept = ap length kept

  -- An empty bucket stays empty.
  unchanged : v ≡ [] → (q : ℕ) → lookup_or [] q (insert p (pop_back v).0 pool) ≡ lookup_or [] q pool
  unchanged no_more q = elim (Bool-cases (p == q)) [
    | inl same ↦
        let at_q = ap (λ x. lookup_or [] x pool) (sym ((==_iff p q).0 same)) in
        lookup_or-insert [] p q (pop_back v).0 pool
        ∙ rw same (ap (λ x. (pop_back x).0) no_more ∙ sym no_more ∙ sym held ∙ sym at_q)
    | inr differs ↦ lookup_or-insert [] p q (pop_back v).0 pool ∙ rw differs refl
  ]

  pop-some : Gives pool p (pop pool p)
  pop-some = subst (Gives pool p) (sym pop-bucket) (elim (pop_back_lem v) [
    | inl (no_more, n) ↦ inl (n, remaining-held ∙ ap length no_more, unchanged no_more)
    | inr (a, n, split) ↦ inr (
      a,
      n,
      held ∙ split ∙ ap (λ t. t ++ a ∷ []) (sym kept),
      omega (
        arith,
        remaining-held,
        remaining-kept,
        ap length split,
        length-append (pop_back v).0 (a ∷ []),
      ),
      others,
    )
  ])

-- Asked for a chunk of a bucket, the pool gives out its last one, keeps the others of the bucket in
-- their order and all other buckets as they are, and counts one less; or it gives none, and then it
-- counts none that remain and every bucket is as it was.
pub pop_lem : (pool : Pool) (p : ℕ) → Gives pool p (pop pool p)
pop_lem pool p = elim (Option-cases (lookup p pool)) [
  | inl e ↦ pop-none pool p e
  | inr (v, e) ↦ pop-some pool p v e
]
