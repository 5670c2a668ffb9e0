-- ===== src/Cheque/Concurrent/Cap.antt =====
-- The spend cap over every interleaving of the tasks, and what breaks it.
use directswarm.Base.{
  ℕ, zero, suc, ◌+◌, ◌-◌, ◌^◌, ◌≤◌, ◌<◌, ◌≡◌, Bool, true, false, List, [], ◌∷◌, Option, none, some,
  arith, u64_max,
}
use directswarm.Cheque.Concurrent.{
  Phase, checking, granted, committed, Call, Shared, Event, adds, decides, ends, decide, finish,
  replace, alter, after, step, exec, unspent, held, approved,
}

-- No amount is added that would take the sum of those held to 2 ^ 64.
abbrev pub Unwrapped : ℕ → List Event → Shared → Type 0
Unwrapped cap [] s = Unit
Unwrapped cap (adds plur ∷ events) s =
    (held s.calls + plur < 2 ^ 64) × Unwrapped cap events (step cap (adds plur) s)
Unwrapped cap (decides i ∷ events) s = Unwrapped cap events (step cap (decides i) s)
Unwrapped cap (ends i success ∷ events) s = Unwrapped cap events (step cap (ends i success) s)

-- What the calls older than one may hold.
abbrev Bound : ℕ → ℕ → Phase → List Call → Type 0
Bound cap plur (checking before) older = held older ≤ before
Bound cap plur granted older = held older + plur ≤ cap
Bound cap plur committed older = held older + plur ≤ cap

abbrev Ordered : ℕ → List Call → Type 0
Ordered cap [] = Unit
Ordered cap (c ∷ cs) = Bound cap c.0 c.1 cs × Ordered cap cs

Bound-le :
    (cap plur : ℕ) (phase : Phase) (cs ds : List Call)
    → held ds ≤ held cs
    → Bound cap plur phase cs
    → Bound cap plur phase ds
Bound-le cap plur (checking before) cs ds h b = omega arith
Bound-le cap plur granted cs ds h b = omega arith
Bound-le cap plur committed cs ds h b = omega arith

approved-le-held : (cs : List Call) → approved cs ≤ held cs
unfolding approved held
approved-le-held [] = omega arith
approved-le-held ((plur, checking before) ∷ cs) = omega (arith, approved-le-held cs)
approved-le-held ((plur, granted) ∷ cs) = omega (arith, approved-le-held cs)
approved-le-held ((plur, committed) ∷ cs) = omega (arith, approved-le-held cs)

Ordered-approved : (cap : ℕ) (cs : List Call) → Ordered cap cs → approved cs ≤ cap
unfolding approved
Ordered-approved cap [] o = omega arith
Ordered-approved cap ((plur, checking before) ∷ cs) (b, o) =
    omega (arith, Ordered-approved cap cs o)
Ordered-approved cap ((plur, granted) ∷ cs) (b, o) = omega (arith, approved-le-held cs)
Ordered-approved cap ((plur, committed) ∷ cs) (b, o) = omega (arith, approved-le-held cs)

-- A change of phase that keeps the bounds.
abbrev Keeps : ℕ → (ℕ → Phase → Option Phase) → Type 0
Keeps cap f =
    (plur : ℕ) (phase : Phase) (cs : List Call)
    → Bound cap plur phase cs
    → Ordered cap cs
    → Ordered cap (replace plur (f plur phase) cs).0

decide-Keeps : (cap : ℕ) → cap < u64_max → Keeps cap (decide cap)
decide-Keeps cap k plur (checking before) cs b o = ground arith
decide-Keeps cap k plur granted cs b o = (b, o)
decide-Keeps cap k plur committed cs b o = (b, o)

finish-Keeps : (cap : ℕ) (success : Bool) → Keeps cap (λ plur. finish success)
finish-Keeps cap success plur (checking before) cs b o = (b, o)
finish-Keeps cap false plur granted cs b o = o
finish-Keeps cap true plur granted cs b o = (b, o)
finish-Keeps cap success plur committed cs b o = (b, o)

held-replace :
    (plur : ℕ) (o : Option Phase) (cs : List Call)
    → held (replace plur o cs).0 + (replace plur o cs).1 ≡ plur + held cs
unfolding held
held-replace plur none cs = omega arith
held-replace plur (some phase) cs = omega arith

module _ (f : ℕ → Phase → Option Phase) where
  held-alter : (i : ℕ) (cs : List Call) → held (alter f i cs).0 + (alter f i cs).1 ≡ held cs
  unfolding held alter
  held-alter i [] = omega arith
  held-alter zero (c ∷ cs) = held-replace c.0 (f c.0 c.1) cs
  held-alter (suc i) (c ∷ cs) = omega (arith, held-alter i cs)

  alter-Ordered :
      (cap : ℕ)
      → Keeps cap f
      → (i : ℕ) (cs : List Call) → Ordered cap cs
      → Ordered cap (alter f i cs).0
  unfolding alter
  alter-Ordered cap keeps i [] o = o
  alter-Ordered cap keeps zero (c ∷ cs) (b, o) = keeps c.0 c.1 cs b o
  alter-Ordered cap keeps (suc i) (c ∷ cs) (b, o) = (
    Bound-le cap c.0 c.1 cs (alter f i cs).0 (omega (arith, held-alter i cs)) b,
    alter-Ordered cap keeps i cs o,
  )

-- The counter is the sum of what is held, and every call's bound holds.
record IsSound (cap : ℕ) (s : Shared) : Type 0 where
  pub balanced : s.issued ≡ held s.calls
  pub word : s.issued < 2 ^ 64
  pub ordered : Ordered cap s.calls

after-IsSound :
    (cap : ℕ) (s : Shared) (f : ℕ → Phase → Option Phase) (i : ℕ)
    → Keeps cap f
    → IsSound cap s
    → IsSound cap (after s (alter f i s.calls))
after-IsSound cap s f i keeps h =
    let sums = held-alter f i s.calls in
    record {
      balanced = omega (arith, h.balanced, h.word, sums);
      word = omega (arith, h.balanced, h.word, sums);
      ordered = alter-Ordered f cap keeps i s.calls h.ordered;
    }

adds-IsSound :
    (cap plur : ℕ) (s : Shared)
    → held s.calls + plur < 2 ^ 64
    → IsSound cap s
    → IsSound cap (step cap (adds plur) s)
unfolding step held
adds-IsSound cap plur s fits h = record {
  balanced = omega (arith, h.balanced, h.word);
  word = omega (arith, h.balanced, h.word);
  ordered = (omega (arith, h.balanced), h.ordered);
}

exec-IsSound :
    (cap : ℕ) (events : List Event) (s : Shared)
    → cap < u64_max
    → IsSound cap s
    → Unwrapped cap events s
    → IsSound cap (exec cap events s)
unfolding step
exec-IsSound cap [] s k h u = h
exec-IsSound cap (adds plur ∷ events) s k h (fits, u) =
    exec-IsSound cap events (step cap (adds plur) s) k (adds-IsSound cap plur s fits h) u
exec-IsSound cap (decides i ∷ events) s k h u =
    exec-IsSound cap events (step cap (decides i) s) k
      (after-IsSound cap s (decide cap) i (decide-Keeps cap k) h) u
exec-IsSound cap (ends i success ∷ events) s k h u =
    exec-IsSound cap events (step cap (ends i success) s) k
      (after-IsSound cap s (λ plur. finish success) i (finish-Keeps cap success) h) u

-- From an unused counter, under a cap below the largest word, and in every interleaving in which
-- the
-- amounts held never add up to 2 ^ 64: the counter is the sum of the amounts held, and those that
-- passed the guard or were sent stay within the cap.
pub exec-cap :
    (cap : ℕ) (events : List Event)
    → cap < u64_max
    → Unwrapped cap events unspent
    → ((exec cap events unspent).issued ≡ held (exec cap events unspent).calls)
      × (approved (exec cap events unspent).calls ≤ cap)
unfolding held
exec-cap cap events k u =
    (sound.balanced, Ordered-approved cap (exec cap events unspent).calls sound.ordered)
  where
    unspent-IsSound : IsSound cap unspent
    unspent-IsSound = record { balanced = omega arith; word = omega arith; ordered = tt }

    sound : IsSound cap (exec cap events unspent)
    sound = exec-IsSound cap events unspent k unspent-IsSound u

-- Two calls of one amount each, and between them a third whose amount takes the counter past the
-- largest word and that is refused only afterwards.
abbrev pub overlapping : ℕ → List Event
overlapping a =
    adds a
    ∷ decides 0
    ∷ ends 0 true
    ∷ adds (2 ^ 64 - a)
    ∷ adds a
    ∷ decides 0
    ∷ ends 0 true
    ∷ decides 1
    ∷ []

-- Whatever the cap below the largest word: for every amount within it of which two are not, the
-- tasks have an interleaving, of three calls of which one is refused, that sends both.
pub overlapping-overspends :
    (cap a : ℕ)
    → cap < u64_max
    → a ≤ cap
    → cap < a + a
    → (approved (exec cap (overlapping a) unspent).calls ≡ a + a)
      × (cap < approved (exec cap (overlapping a) unspent).calls)
unfolding step alter approved
overlapping-overspends cap a k h m = ground arith
