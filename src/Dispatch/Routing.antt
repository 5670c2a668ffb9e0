-- ===== src/Dispatch/Routing.antt =====
-- How `fetch_scheduled` of rust/ds-net/src/schedule.rs routes the needed chunks before the first
-- dial.
use directswarm.Base.{
  ℕ, ◌+◌, ◌≡◌, refl, ap, sym, ◌∙◌, Bool, true, false, List, [], ◌∷◌, ◌++◌, append_assoc, append-nil,
  arith, if◌then◌else◌, ◌==◌, ==_iff, keep, not, ◌&&◌, length, nat_eq, lookup, insert, lookup_or,
  lookup_or-insert, Bool-cases, inl, inr,
}
use directswarm.Wire.{Bytes}
use directswarm.Swarm.{bucket_prefix}
use directswarm.Dispatch.{Pool}

-- The work buckets, the chunks sent to the fallback, and the number of those dropped.
pub record Routed : Type 0 where
  pub buckets : Pool
  pub fallback : List Bytes
  pub dropped : ℕ

-- One chunk; `covered` are the buckets that have a storer.
unfoldable pub place : (ℕ → Bool) → Bool → ℕ → Bytes → Routed → Routed
place covered direct_only depth addr r =
    let p = bucket_prefix addr depth in
    if covered p
    then record r { buckets = insert p (lookup_or [] p r.buckets ++ addr ∷ []) r.buckets }
    else if direct_only
    then record r { dropped = r.dropped + 1 }
    else record r { fallback = r.fallback ++ addr ∷ [] }

-- The loop over the chunks.
abbrev pub route : (ℕ → Bool) → Bool → ℕ → List Bytes → Routed → Routed
route covered direct_only depth [] r = r
route covered direct_only depth (addr ∷ addrs) r =
    route covered direct_only depth addrs (place covered direct_only depth addr r)

abbrev pub unrouted : Routed
unrouted = record { buckets = []; fallback = []; dropped = 0 }

-- The chunks of a bucket.
abbrev pub of_bucket : ℕ → ℕ → Bytes → Bool
of_bucket depth p addr = bucket_prefix addr depth == p

abbrev pub uncovered : (ℕ → Bool) → ℕ → Bytes → Bool
uncovered covered depth addr = not (covered (bucket_prefix addr depth))

keep-cons :
    (f : Bytes → Bool) (x : Bytes) (xs : List Bytes)
    → keep f (x ∷ xs) ≡ (if f x then x ∷ [] else []) ++ keep f xs
keep-cons f x xs = elim (Bool-cases (f x)) [ inl t ↦ rw t refl | inr t ↦ rw t refl ]

module _ (covered : ℕ → Bool) (direct_only : Bool) (depth : ℕ) where
  buckets-uncovered :
      (addr : Bytes) (r : Routed)
      → covered (bucket_prefix addr depth) ≡ false
      → (place covered direct_only depth addr r).buckets ≡ r.buckets
  unfolding place
  buckets-uncovered addr r u = elim (Bool-cases direct_only) [
    | inl d ↦ rw (u, d) refl
    | inr d ↦ rw (u, d) refl
  ]

  buckets-covered :
      (addr : Bytes) (r : Routed) (p : ℕ)
      → covered (bucket_prefix addr depth) ≡ true
      → lookup_or [] p (place covered direct_only depth addr r).buckets
        ≡ lookup_or [] p r.buckets ++ (if of_bucket depth p addr then addr ∷ [] else [])
  unfolding place
  buckets-covered addr r p c =
      let q = bucket_prefix addr depth in
      rw (c, lookup_or-insert [] q p (lookup_or [] q r.buckets ++ addr ∷ []) r.buckets)
        (elim (Bool-cases (q == p)) [
          | inl same ↦
              rw same (ap (λ k. lookup_or [] k r.buckets ++ addr ∷ []) ((==_iff q p).0 same))
          | inr other ↦ rw other (sym (append-nil (lookup_or [] p r.buckets)))
        ])

  buckets-place :
      (addr : Bytes) (r : Routed) (p : ℕ)
      → covered p ≡ true
      → lookup_or [] p (place covered direct_only depth addr r).buckets
        ≡ lookup_or [] p r.buckets ++ (if of_bucket depth p addr then addr ∷ [] else [])
  buckets-place addr r p c = elim (Bool-cases (covered (bucket_prefix addr depth))) [
    | inl here ↦ buckets-covered addr r p here
    | inr gone ↦
        let other : bucket_prefix addr depth == p ≡ false =
          elim (Bool-cases (bucket_prefix addr depth == p)) [
            | inl same ↦
                let k = ap covered ((==_iff (bucket_prefix addr depth) p).0 same) in absurd (cc)
            | inr no_it_is_not ↦ no_it_is_not
          ] in
        rw (buckets-uncovered addr r gone, other) (sym (append-nil (lookup_or [] p r.buckets)))
  ]

  route-buckets :
      (addrs : List Bytes) (r : Routed) (p : ℕ)
      → covered p ≡ true
      → lookup_or [] p (route covered direct_only depth addrs r).buckets
        ≡ lookup_or [] p r.buckets ++ keep (of_bucket depth p) addrs
  route-buckets [] r p c = sym (append-nil (lookup_or [] p r.buckets))
  route-buckets (addr ∷ addrs) r p c =
      route-buckets addrs (place covered direct_only depth addr r) p c
      ∙ ap (λ t. t ++ keep (of_bucket depth p) addrs) (buckets-place addr r p c)
      ∙ append_assoc (lookup_or [] p r.buckets) (if of_bucket depth p addr then addr ∷ [] else [])
          (keep (of_bucket depth p) addrs)
      ∙ ap (λ t. lookup_or [] p r.buckets ++ t) (sym (keep-cons (of_bucket depth p) addr addrs))

  fallback-place :
      (addr : Bytes) (r : Routed)
      → direct_only ≡ false
      → (place covered direct_only depth addr r).fallback
        ≡ r.fallback ++ (if uncovered covered depth addr then addr ∷ [] else [])
  unfolding place
  fallback-place addr r d = elim (Bool-cases (covered (bucket_prefix addr depth))) [
    | inl here ↦ rw here (sym (append-nil r.fallback))
    | inr gone ↦ rw (gone, d) refl
  ]

  route-fallback :
      (addrs : List Bytes) (r : Routed)
      → direct_only ≡ false
      → (route covered direct_only depth addrs r).fallback
        ≡ r.fallback ++ keep (uncovered covered depth) addrs
  route-fallback [] r d = sym (append-nil r.fallback)
  route-fallback (addr ∷ addrs) r d =
      route-fallback addrs (place covered direct_only depth addr r) d
      ∙ ap (λ t. t ++ keep (uncovered covered depth) addrs) (fallback-place addr r d)
      ∙ append_assoc r.fallback (if uncovered covered depth addr then addr ∷ [] else [])
          (keep (uncovered covered depth) addrs)
      ∙ ap (λ t. r.fallback ++ t) (sym (keep-cons (uncovered covered depth) addr addrs))

  dropped-place :
      (addr : Bytes) (r : Routed)
      → (place covered direct_only depth addr r).dropped
        ≡ r.dropped + (if direct_only && uncovered covered depth addr then 1 else 0)
  unfolding place
  dropped-place addr r = elim (Bool-cases (covered (bucket_prefix addr depth))) [
    | inl here ↦ elim (Bool-cases direct_only) [
      | inl d ↦ rw (here, d) (omega arith)
      | inr d ↦ rw (here, d) (omega arith)
    ]
    | inr gone ↦ elim (Bool-cases direct_only) [
      | inl d ↦ rw (gone, d) (omega arith)
      | inr d ↦ rw (gone, d) (omega arith)
    ]
  ]

  route-dropped :
      (addrs : List Bytes) (r : Routed)
      → (route covered direct_only depth addrs r).dropped
        ≡ r.dropped + (if direct_only then length (keep (uncovered covered depth) addrs) else 0)
  route-dropped [] r = ground arith
  route-dropped (addr ∷ addrs) r =
      ground
        (arith, route-dropped addrs (place covered direct_only depth addr r), dropped-place addr r)

  -- Nothing is put into a bucket that is not covered.
  place-no_bucket :
      (addr : Bytes) (r : Routed) (p : ℕ)
      → covered p ≡ false
      → lookup_or [] p (place covered direct_only depth addr r).buckets ≡ lookup_or [] p r.buckets
  unfolding place
  place-no_bucket addr r p c =
      let q = bucket_prefix addr depth in
      elim (Bool-cases (covered q)) [
        | inr gone ↦ ap (lookup_or [] p) (buckets-uncovered addr r gone)
        | inl here ↦
            let other : q == p ≡ false = elim (Bool-cases (q == p)) [
              | inl same ↦ let k = ap covered ((==_iff q p).0 same) in absurd (cc)
              | inr apart ↦ apart
            ] in
            rw
              (
                here,
                lookup_or-insert [] q p (lookup_or [] q r.buckets ++ addr ∷ []) r.buckets,
                other,
              )
              refl
      ]

  route-no_bucket :
      (addrs : List Bytes) (r : Routed) (p : ℕ)
      → covered p ≡ false
      → lookup_or [] p (route covered direct_only depth addrs r).buckets ≡ lookup_or [] p r.buckets
  route-no_bucket [] r p c = refl
  route-no_bucket (addr ∷ addrs) r p c =
      route-no_bucket addrs (place covered direct_only depth addr r) p c
      ∙ place-no_bucket addr r p c

  direct-fallback :
      (addrs : List Bytes) (r : Routed)
      → direct_only ≡ true
      → (route covered direct_only depth addrs r).fallback ≡ r.fallback
  unfolding place
  direct-fallback [] r d = refl
  direct-fallback (addr ∷ addrs) r d =
      direct-fallback addrs (place covered direct_only depth addr r) d
      ∙ elim (Bool-cases (covered (bucket_prefix addr depth))) [
        | inl here ↦ rw here refl
        | inr gone ↦ rw (gone, d) refl
      ]

-- Whichever buckets are covered, none included: the pool's bucket of any prefix has exactly the needed
-- chunks with that prefix, in their order, if it is covered, and nothing if it is not; the chunks of the
-- uncovered prefixes all go to the fallback, in their order and none is dropped, or, in direct-only
-- mode, none of them does and each is counted as dropped.
pub route_lem :
    (covered : ℕ → Bool) (depth : ℕ) (needed : List Bytes) (p : ℕ)
    → ((direct_only : Bool)
        → lookup_or [] p (route covered direct_only depth needed unrouted).buckets
          ≡ (if covered p then keep (of_bucket depth p) needed else []))
      × ((route covered false depth needed unrouted).fallback
          ≡ keep (uncovered covered depth) needed)
      × ((route covered false depth needed unrouted).dropped ≡ 0)
      × ((route covered true depth needed unrouted).dropped
          ≡ length (keep (uncovered covered depth) needed))
      × ((route covered true depth needed unrouted).fallback ≡ [])
route_lem covered depth needed p = (
  λ direct_only. elim (Bool-cases (covered p)) [
    | inl here ↦
        rw here (route-buckets covered direct_only depth needed unrouted p here ∙ nothing_yet)
    | inr gone ↦
        rw gone (route-no_bucket covered direct_only depth needed unrouted p gone ∙ empty_yet)
  ],
  route-fallback covered false depth needed unrouted refl,
  route-dropped covered false depth needed unrouted ∙ omega arith,
  route-dropped covered true depth needed unrouted ∙ omega arith,
  direct-fallback covered true depth needed unrouted refl,
)
  where
    empty_yet : lookup_or {V = List Bytes} [] p [] ≡ []
    empty_yet = unfold lookup_or lookup in refl

    nothing_yet :
        lookup_or [] p [] ++ keep (of_bucket depth p) needed ≡ keep (of_bucket depth p) needed
    nothing_yet = unfold lookup_or lookup in refl
