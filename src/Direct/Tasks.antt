-- ===== src/Direct/Tasks.antt =====
-- What the fetches and the credits do between the settlement's steps, and the invariant.
use directswarm.Base.{
  ℕ, zero, suc, ◌+◌, ◌-◌, ◌≤◌, ◌<◌, ◌≡◌, refl, ◌∙◌, List, [], ◌∷◌, ◌++◌, Option, none, some, arith,
  u64_max, Bool, true, false, Bool-cases, inl, inr, total, total-append, length, length-append, ltb,
  not, ◌&&◌, sat_add, wrap_sub, if◌then◌else◌,
}
use directswarm.Swarm.{SwarmAddress}
use directswarm.Direct.{
  Accounting, Terms, Stage, sleeping, credited, swept, hung_up, unpaid, At, waiting, woken,
  refreshing, deciding, checking, lost, weighing, emitting, measuring, ended, Probe,
}
use directswarm.Direct.Loop.{ask, take_at, fetch_ended, credit_step, credit_ended}
use directswarm.Direct.Invariant.{Known, Sound}

abbrev Taken : {X : Type 0} → (X → ℕ) → List X → Option (X × List X) → Type 0
Taken f xs none = Unit
Taken f xs (some (x, rest)) = (total f xs ≡ f x + total f rest) × (length xs ≡ suc (length rest))

module _ {A : Type 0} (acc : Accounting A) (t : Terms) (paid : ℕ) where
  take_at_lem : {X : Type 0} (f : X → ℕ) (i : ℕ) (xs : List X) → Taken f xs (take_at i xs)
  take_at_lem f i [] = tt
  take_at_lem f zero (x ∷ xs) = (refl, refl)
  take_at_lem {X} f (suc i) (x ∷ xs) = go (take_at i xs) (take_at_lem f i xs)
    where
      go :
          (o : Option (X × List X))
          → Taken f xs o
          → Taken f (x ∷ xs) (elim o [ none ↦ none | some (y, rest) ↦ some (y, x ∷ rest) ])
      go none h = tt
      go (some (y, rest)) (h, k) = (omega (arith, h), omega (arith, k))

  -- The knowledge of the place survives whatever leaves it and the summary as they are, hangs up at
  -- most, and adds nothing to the pending units.
  pub Known-of :
      (s s' : Probe A) (a : At)
      → s'.pending ≤ s.pending
      → s'.summary ≡ s.summary
      → s'.finishing ≡ s.finishing
      → (s.alive ≡ false → s'.alive ≡ false)
      → Known t s a
      → Known t s' a
  Known-of s s' waiting p q f l k = ground arith
  Known-of s s' woken p q f l k = ground arith
  Known-of s s' refreshing p q f l k = ground arith
  Known-of s s' deciding p q f l k = ground arith
  Known-of s s' checking p q f l k = ground arith
  Known-of s s' (lost balance) p q f l k = ground arith
  Known-of s s' (weighing debt) p q f l k = ground arith
  Known-of s s' (emitting units) p q f l k = ground arith
  Known-of s s' (measuring balance) p q f l k = ground arith
  Known-of s s' (ended swept) p q f l k = ground arith
  Known-of s s' (ended hung_up) p q f l k = l k
  Known-of s s' (ended unpaid) p q f l k = ground arith

  -- Another account and other fetches, within the same bounds.
  moved-Sound :
      (a : A) (prices : List ℕ) (s : Probe A)
      → acc.balance a + acc.reserved a ≤ t.reserve_cap
      → acc.reserved a ≡ total (λ n. n) prices
      → length prices ≤ t.pipeline_depth
      → Sound acc t paid s
      → Sound acc t paid (record s { acct = a; fetches = prices })
  moved-Sound a prices s held guarded piped h = record {
    held = held;
    guarded = guarded;
    piped = piped;
    covered = h.covered;
    small = h.small;
    capped = h.capped;
    counted = h.counted;
    booked = h.booked;
    known =
        Known-of s (record s { acct = a; fetches = prices }) s.at (omega arith) refl refl (λ e. e)
          h.known;
  }

  served-Sound :
      (price : ℕ) (rest : List ℕ) (served : Bool) (s : Probe A)
      → Taken (λ n. n) s.fetches (some (price, rest))
      → Sound acc t paid s
      → Sound acc t paid (record s {
        acct = if served then acc.apply s.acct price else acc.release s.acct price;
        fetches = rest;
      })
  served-Sound price rest true s (sum, len) h =
      let some_held : price ≤ acc.reserved s.acct = omega (arith, h.guarded) in
      let balance = acc.balance-apply s.acct price some_held in
      let reserved = acc.reserved-apply s.acct price some_held in
      moved-Sound (acc.apply s.acct price) rest s (omega (arith, h.held)) (omega (arith, h.guarded))
        (omega (arith, h.piped)) h
  served-Sound price rest false s (sum, len) h =
      let some_held : price ≤ acc.reserved s.acct = omega (arith, h.guarded) in
      let balance = acc.balance-release s.acct price in
      let reserved = acc.reserved-release s.acct price some_held in
      moved-Sound (acc.release s.acct price) rest s (omega (arith, h.held))
        (omega (arith, h.guarded)) (omega (arith, h.piped)) h

  pub fetch_ended-Sound :
      (i : ℕ) (served : Bool) (s : Probe A)
      → Sound acc t paid s
      → Sound acc t paid (fetch_ended acc t i served s)
  unfolding fetch_ended
  fetch_ended-Sound i served s h = go (take_at i s.fetches) (take_at_lem (λ n. n) i s.fetches)
    where
      go :
          (o : Option (ℕ × List ℕ))
          → Taken (λ n. n) s.fetches o
          → Sound acc t paid (elim o [
            | none ↦ s
            | some (price, rest) ↦ record s {
              acct = if served then acc.apply s.acct price else acc.release s.acct price;
              fetches = rest;
            }
          ])
      go none k = h
      go (some (price, rest)) k = served-Sound price rest served s k h

  credit_step-Sound :
      (task : Stage × ℕ) (rest : List (Stage × ℕ)) (s : Probe A)
      → t.reserve_cap ≤ u64_max
      → Taken (λ (c : Stage × ℕ). c.1) s.credits (some (task, rest))
      → Sound acc t paid s
      → Sound acc t paid (credit_step acc t task rest s)
  credit_step-Sound (sleeping, units) rest s wide (sum, len) h =
      let balance = acc.balance-credit s.acct units in
      let reserved = acc.reserved-credit s.acct units in
      record {
        held = omega (arith, h.held);
        guarded = reserved ∙ h.guarded;
        piped = h.piped;
        covered = omega (arith, h.covered);
        small = h.small;
        capped = h.capped;
        counted = h.counted;
        booked = h.booked;
        known =
            Known-of s (credit_step acc t (sleeping, units) rest s) s.at (omega arith) refl refl
              (λ e. e) h.known;
      }
  credit_step-Sound (credited, units) rest s wide (sum, len) h =
      let less : wrap_sub s.pending units ≡ s.pending - units = omega (arith, h.covered, h.small) in
      record {
        held = h.held;
        guarded = h.guarded;
        piped = h.piped;
        covered = omega (arith, h.covered);
        small = omega (arith, h.small);
        capped = h.capped;
        counted = h.counted;
        booked = h.booked;
        known =
            Known-of s (credit_step acc t (credited, units) rest s) s.at (omega arith) refl refl
              (λ e. e) h.known;
      }

  pub credit_ended-Sound :
      (i : ℕ) (s : Probe A)
      → t.reserve_cap ≤ u64_max
      → Sound acc t paid s
      → Sound acc t paid (credit_ended acc t i s)
  unfolding credit_ended
  credit_ended-Sound i s wide h =
      go (take_at i s.credits) (take_at_lem (λ (c : Stage × ℕ). c.1) i s.credits)
    where
      go :
          (o : Option ((Stage × ℕ) × List (Stage × ℕ)))
          → Taken (λ (c : Stage × ℕ). c.1) s.credits o
          → Sound acc t paid
              (elim o [ none ↦ s | some (task, rest) ↦ credit_step acc t task rest s ])
      go none k = h
      go (some (task, rest)) k = credit_step-Sound task rest s wide k h

  -- The debt, the reservations and the price were seen to stay within the cap.
  granted-Sound :
      (price : ℕ) (s : Probe A) (o : Option A)
      → acc.try_reserve s.acct price ≡ o
      → t.reserve_cap < u64_max
      → ltb (length s.fetches) t.pipeline_depth ≡ true
      → ltb t.reserve_cap (sat_add (sat_add (acc.balance s.acct) (acc.reserved s.acct)) price)
        ≡ false
      → Sound acc t paid s
      → Sound acc t paid
          (elim o [ none ↦ s | some a ↦ record s { acct = a; fetches = s.fetches ++ price ∷ [] } ])
  granted-Sound price s none e wide free fits h = h
  granted-Sound price s (some a) e wide free fits h =
      let balance = acc.balance-try_reserve s.acct a price e in
      let reserved = acc.reserved-try_reserve s.acct a price e in
      let sum = total-append (λ n. n) s.fetches (price ∷ []) in
      let longer = length-append s.fetches (price ∷ []) in
      moved-Sound a (s.fetches ++ price ∷ []) s (ground (arith, balance, reserved))
        (omega (arith, h.guarded)) (ground (arith, longer)) h

  pub ask-Sound :
      (addr : SwarmAddress) (saw_alive : Bool) (s : Probe A)
      → t.reserve_cap < u64_max
      → Sound acc t paid s
      → Sound acc t paid (ask acc t addr saw_alive s)
  unfolding ask
  ask-Sound addr saw_alive s wide h =
      let price = t.price addr in
      let o = acc.try_reserve s.acct price in
      elim (Bool-cases (
        saw_alive
        && ltb (length s.fetches) t.pipeline_depth
        && not (
            ltb t.reserve_cap
              (sat_add (sat_add (acc.balance s.acct) (acc.reserved s.acct)) price)))) [
                | inl may ↦
                    rw may (granted-Sound price s o refl wide (ground arith) (ground arith) h)
                | inr not_yet ↦ rw not_yet h
              ]
