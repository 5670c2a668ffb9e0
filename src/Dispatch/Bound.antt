-- ===== src/Dispatch/Bound.antt =====
-- What each bucket of the dispatcher has left, against its dials.
use directswarm.Base.{
  ℕ, suc, ◌+◌, ◌-◌, ◌*◌, ◌≤◌, ◌<◌, ◌≡◌, ◌≢◌, refl, ap, ◌∙◌, Bool, true, false, List, [], ◌∷◌, ◌++◌,
  Option, none, some, arith, if◌then◌else◌, ◌==◌, ==_iff, length, is_empty, All, nat_eq, keep, keys,
  lookup_or-insert, lookup_or-remove, length-append, ◌⊎◌, inl, inr, Bool-cases,
}
use directswarm.Dispatch.{
  Member, Pool, Dispatch, unused, dialled, rounds, is_exhausted, recycle, recycle_all, refill, dial,
  refilled,
}

abbrev pub weigh : ℕ → ℕ → ℕ → ℕ
weigh u m r = u + (u + m) * (3 - r)

-- The dials that a bucket has left: each unused member once, and all of them in every round to
-- come.
abbrev pub potential : Dispatch → ℕ → ℕ
potential d p = weigh (length (unused d p)) (length (dialled d p)) (rounds d p)

-- A recycling of the bucket would gain nothing.
abbrev Spent : Dispatch → ℕ → Type 0
Spent d p = ((length (unused d p) ≡ 0) × (rounds d p < 3)) ⊎ (length (dialled d p) ≡ 0)

module _ (d : Dispatch) (q p : ℕ) where
  pub unused-recycle : unused (recycle d q) p ≡ (if q == p then dialled d q else unused d p)
  unfolding recycle unused
  unused-recycle = lookup_or-insert [] q p (dialled d q) d.cands

  pub dialled-recycle : dialled (recycle d q) p ≡ (if q == p then [] else dialled d p)
  unfolding recycle dialled
  dialled-recycle = lookup_or-remove [] q p d.used

  pub rounds-recycle : rounds (recycle d q) p ≡ (if q == p then rounds d q + 1 else rounds d p)
  unfolding recycle rounds
  rounds-recycle = lookup_or-insert 0 q p (rounds d q + 1) d.recycles

  recycle-other :
      q ≢ p → (potential (recycle d q) p ≡ potential d p) × (Spent d p → Spent (recycle d q) p)
  recycle-other ne = grind (arith, unused-recycle, dialled-recycle, rounds-recycle, ==_iff q p)

weigh-recycle : (m r : ℕ) → r < 3 → weigh m 0 (r + 1) ≡ weigh 0 m r
weigh-recycle m r h =
    let e : 3 - r ≡ suc (3 - (r + 1)) = omega arith in grind (arith, ap (λ k. m * k) e)

weigh-dial : (u m r : ℕ) → weigh u (m + 1) r + 1 ≡ weigh (suc u) m r
weigh-dial u m r =
    let e : u + (m + 1) ≡ suc u + m = omega arith in omega (arith, ap (λ k. k * (3 - r)) e)

pub at_self : {A : Type 0} (p : ℕ) (a b : A) → (if p == p then a else b) ≡ a
at_self p a b = ground (arith, ==_iff p p)

pub at_other : {A : Type 0} (q p : ℕ) (a b : A) → q ≢ p → (if q == p then a else b) ≡ b
at_other q p a b ne = ground (arith, ==_iff q p)

-- A round of all the members takes the place of the last one.
recycle-same :
    (d : Dispatch) (p : ℕ)
    → Spent d p
    → (potential (recycle d p) p ≤ potential d p) × Spent (recycle d p) p
recycle-same d p spent =
    let u = unused-recycle d p p ∙ at_self p (dialled d p) (unused d p) in
    let m = dialled-recycle d p p ∙ at_self p [] (dialled d p) in
    let r = rounds-recycle d p p ∙ at_self p (rounds d p + 1) (rounds d p) in
    rw (u, m, r)
      (elim spent [
        | inl (none_left, early) ↦
            rw none_left
              (omega (arith, weigh-recycle (length (dialled d p)) (rounds d p) early), inr refl)
        | inr none_used ↦ rw none_used (omega arith, inr refl)
      ])

recycle_all-potential :
    (d : Dispatch) (p : ℕ) (qs : List ℕ)
    → Spent d p
    → potential (recycle_all d qs) p ≤ potential d p
recycle_all-potential d p [] spent = omega arith
recycle_all-potential d p (q ∷ qs) spent = elim (Bool-cases (q == p)) [
  | inl same ↦
      let e : q ≡ p = (==_iff q p).0 same in
      let one = recycle-same d p spent in
      rw e (omega (arith, one.0, recycle_all-potential (recycle d p) p qs one.1))
  | inr other ↦
      let one = recycle-other d q p (ground (arith, ==_iff q p)) in
      omega (arith, one.0, recycle_all-potential (recycle d q) p qs (one.1 spent))
]

recycle_all-other :
    (d : Dispatch) (p : ℕ) (qs : List ℕ)
    → All (λ q. q ≢ p) qs
    → potential (recycle_all d qs) p ≡ potential d p
recycle_all-other d p [] h = refl
recycle_all-other d p (q ∷ qs) (ne, h) =
    recycle_all-other (recycle d q) p qs h ∙ (recycle-other d q p ne).0

-- Whoever passes the filter is exhausted.
keep-other : (f : ℕ → Bool) (p : ℕ) (qs : List ℕ) → f p ≡ false → All (λ q. q ≢ p) (keep f qs)
keep-other f p [] h = tt
keep-other f p (q ∷ qs) h = elim (Bool-cases (f q)) [
  | inl t ↦ rw t (λ e. ground (arith, ap f e), keep-other f p qs h)
  | inr t ↦ rw t (keep-other f p qs h)
]

is_empty-length : {A : Type 0} (xs : List A) → is_empty xs ≡ true → length xs ≡ 0
is_empty-length [] h = refl
is_empty-length (x ∷ xs) h = cc

is_exhausted-Spent : (pool : Pool) (d : Dispatch) (p : ℕ) → is_exhausted pool d p ≡ true → Spent d p
unfolding is_exhausted
is_exhausted-Spent pool d p h = inl (is_empty-length (unused d p) (ground arith), ground arith)

pub refilled-potential :
    (pool : Pool) (d : Dispatch) (p : ℕ) → potential (refilled pool d) p ≤ potential d p
unfolding refill
refilled-potential pool d p = elim (Bool-cases (is_exhausted pool d p)) [
  | inl yes_it_is ↦
      recycle_all-potential d p (refill pool d) (is_exhausted-Spent pool d p yes_it_is)
  | inr it_is_not ↦ omega (
    arith,
    recycle_all-other d p (refill pool d)
        (keep-other (is_exhausted pool d) p (keys d.used) it_is_not),
  )
]

-- Every member stands in the bucket of its own prefix.
abbrev pub Tagged : Dispatch → Type 0
Tagged d =
    (p : ℕ)
    → All (λ (m : Member). m.0.prefix ≡ p) (unused d p)
      × All (λ (m : Member). m.0.prefix ≡ p) (dialled d p)

-- One if the dialled member is of the bucket.
abbrev pub hits : ℕ → Option Member → ℕ
hits p none = 0
hits p (some m) = if m.0.prefix == p then 1 else 0

module _ (d : Dispatch) (q p : ℕ) (m : Member) (rest : List Member) where
  pub unused-dial : unused (dial d q (m ∷ rest)).0 p ≡ (if q == p then rest else unused d p)
  unfolding dial unused
  unused-dial = lookup_or-insert [] q p rest d.cands

  pub dialled-dial :
      dialled (dial d q (m ∷ rest)).0 p ≡ (if q == p then dialled d q ++ m ∷ [] else dialled d p)
  unfolding dial dialled
  dialled-dial = lookup_or-insert [] q p (dialled d q ++ m ∷ []) d.used

  rounds-dial : rounds (dial d q (m ∷ rest)).0 p ≡ rounds d p
  unfolding dial rounds
  rounds-dial = refl

dial-same :
    (d : Dispatch) (p : ℕ) (m : Member) (rest : List Member)
    → unused d p ≡ m ∷ rest
    → potential (dial d p (m ∷ rest)).0 p + 1 ≡ potential d p
dial-same d p m rest h =
    let u = unused-dial d p p m rest ∙ at_self p rest (unused d p) in
    let v = dialled-dial d p p m rest ∙ at_self p (dialled d p ++ m ∷ []) (dialled d p) in
    let n = length-append (dialled d p) (m ∷ []) in
    rw (u, v, rounds-dial d p p m rest, n, h)
      (weigh-dial (length rest) (length (dialled d p)) (rounds d p))

dial-other :
    (d : Dispatch) (q p : ℕ) (m : Member) (rest : List Member)
    → q ≢ p
    → potential (dial d q (m ∷ rest)).0 p ≡ potential d p
dial-other d q p m rest ne =
    let u = unused-dial d q p m rest ∙ at_other q p rest (unused d p) ne in
    let v = dialled-dial d q p m rest ∙ at_other q p (dialled d q ++ m ∷ []) (dialled d p) ne in
    rw (u, v, rounds-dial d q p m rest) refl

hits-prefix : (p q : ℕ) (m : Member) → m.0.prefix ≡ q → hits p (some m) ≡ (if q == p then 1 else 0)
hits-prefix p q m tag = ap (λ k. if k == p then 1 else 0) tag

dial-some :
    (d : Dispatch) (q p : ℕ) (m : Member) (rest : List Member)
    → unused d q ≡ m ∷ rest
    → m.0.prefix ≡ q
    → potential (dial d q (m ∷ rest)).0 p + hits p (some m) ≡ potential d p
dial-some d q p m rest h tag = elim (Bool-cases (q == p)) [
  | inl same ↦
      let e : q ≡ p = (==_iff q p).0 same in
      let one : hits p (some m) ≡ 1 = hits-prefix p q m tag ∙ ap (λ t. if t then 1 else 0) same in
      rw one (rw e (dial-same d p m rest (rw e at h)))
  | inr other ↦
      let one : hits p (some m) ≡ 0 = hits-prefix p q m tag ∙ ap (λ t. if t then 1 else 0) other in
      omega (arith, one, dial-other d q p m rest (ground (arith, ==_iff q p)))
]

pub dial-potential :
    (d : Dispatch) (q p : ℕ) (v : List Member)
    → unused d q ≡ v
    → All (λ (m : Member). m.0.prefix ≡ q) v
    → potential (dial d q v).0 p + hits p (dial d q v).1 ≡ potential d p
dial-potential d q p [] h tags = unfold dial in omega arith
dial-potential d q p (m ∷ rest) h (tag, tags) =
    ap (λ r. potential (dial d q (m ∷ rest)).0 p + hits p r) chosen ∙ dial-some d q p m rest h tag
  where
    chosen : (dial d q (m ∷ rest)).1 ≡ some m
    chosen = unfold dial in refl
