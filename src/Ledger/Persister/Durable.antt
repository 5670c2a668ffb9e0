-- ===== src/Ledger/Persister/Durable.antt =====
-- Whether what was recorded reaches the file.
use mathlib.Core.Path.{subst}
use directswarm.Base.{
  sym, ℕ, ◌≡◌, refl, ◌⊎◌, inl, inr, Bool, true, false, List, [], ◌∷◌, some, All, arith, lookup,
  bytes_beq_iff, bytes_eq, insert, lookup-insert,
}
use directswarm.Ledger.{record_issued}
use directswarm.Ledger.Persister.{
  Map, Phase, asleep, awake, writing, Store, Event, issues, wakes, snapshots, writes, flushes,
  open_store, swap_dirty, wake, snapshot, finish_write, flush, advance, advance_all,
}

abbrev pub IsLoop : Event → Type 0
IsLoop (issues who n) = Unit
IsLoop wakes = Unit
IsLoop snapshots = Unit
IsLoop (writes success) = Unit
IsLoop (flushes success) = ⊥

-- What is not in the file is marked, or is about to be written.
abbrev Covered : Phase → Store → Type 0
Covered asleep s = (s.ledger.dirty ≡ true) ⊎ (s.file ≡ s.ledger.map)
Covered awake s = Unit
Covered (writing m) s = (s.ledger.dirty ≡ true) ⊎ (m ≡ s.ledger.map)

record_issued-Covered :
    (p : Phase) (s : Store) (who : List ℕ) (n : ℕ)
    → Covered p (record s { ledger = record_issued s.ledger who n })
unfolding record_issued
record_issued-Covered asleep s who n = inl refl
record_issued-Covered awake s who n = tt
record_issued-Covered (writing m) s who n = inl refl

-- The invariant at the phase that the loop is in.
abbrev IsCovered : Store → Type 0
IsCovered s = Covered s.phase s

at_phase : (s : Store) (p : Phase) → s.phase ≡ p → Covered p s → IsCovered s
at_phase s p e h = subst (λ q. Covered q s) (sym e) h

swap_dirty-Covered :
    (d : Bool) (s : Store) → s.phase ≡ asleep → Covered asleep s → IsCovered (swap_dirty d s)
swap_dirty-Covered true s e h = tt
swap_dirty-Covered false s e h = at_phase s asleep e h

wake-Covered : (p : Phase) (s : Store) → s.phase ≡ p → Covered p s → IsCovered (wake p s)
unfolding wake
wake-Covered asleep s e h = swap_dirty-Covered s.ledger.dirty s e h
wake-Covered awake s e h = at_phase s awake e tt
wake-Covered (writing m) s e h = at_phase s (writing m) e h

snapshot-Covered : (p : Phase) (s : Store) → s.phase ≡ p → Covered p s → IsCovered (snapshot p s)
unfolding snapshot
snapshot-Covered asleep s e h = at_phase s asleep e h
snapshot-Covered awake s e h = inr refl
snapshot-Covered (writing m) s e h = at_phase s (writing m) e h

finish_write-Covered :
    (success : Bool) (p : Phase) (s : Store)
    → s.phase ≡ p
    → Covered p s
    → IsCovered (finish_write success p s)
unfolding finish_write
finish_write-Covered success asleep s e h = at_phase s asleep e h
finish_write-Covered success awake s e h = at_phase s awake e tt
finish_write-Covered true (writing m) s e h = h
finish_write-Covered false (writing m) s e h = inl refl

advance-Covered : (e : Event) (s : Store) → IsLoop e → IsCovered s → IsCovered (advance e s)
unfolding advance
advance-Covered (issues who n) s l h = record_issued-Covered s.phase s who n
advance-Covered wakes s l h = wake-Covered s.phase s refl h
advance-Covered snapshots s l h = snapshot-Covered s.phase s refl h
advance-Covered (writes success) s l h = finish_write-Covered success s.phase s refl h
advance-Covered (flushes success) s l h = absurd l

advance_all-Covered :
    (events : List Event) (s : Store)
    → All IsLoop events
    → IsCovered s
    → IsCovered (advance_all events s)
advance_all-Covered [] s l h = h
advance_all-Covered (e ∷ events) s (le, l) h =
    advance_all-Covered events (advance e s) l (advance-Covered e s le h)

-- In every order of recordings and of the persister's wakes, snapshots and writes, failed ones
-- included, and without a flush: whenever the loop sleeps and the map is not marked, the file holds
-- the map.
pub advance_all-Durable :
    (m : Map) (events : List Event)
    → All IsLoop events
    → (advance_all events (open_store m)).phase ≡ asleep
    → (advance_all events (open_store m)).ledger.dirty ≡ false
    → (advance_all events (open_store m)).file ≡ (advance_all events (open_store m)).ledger.map
advance_all-Durable m events l sleeps clean = elim covered [
  | inl dirty ↦ absurd (cc)
  | inr same ↦ same
]
  where
    covered : Covered asleep (advance_all events (open_store m))
    covered =
        subst (λ p. Covered p (advance_all events (open_store m))) sleeps
          (advance_all-Covered events (open_store m) l (unfold open_store in inr refl))

-- A recording whose snapshot is being written, a second one, a flush that succeeds, and the end of
-- the first write.
abbrev pub overtaken : List ℕ → ℕ → ℕ → List Event
overtaken who a b =
    issues who a ∷ wakes ∷ snapshots ∷ issues who b ∷ flushes true ∷ writes true ∷ []

-- Whatever the ledger, the beneficiary and the two cumulatives: a successful flush does not keep a
-- snapshot that is still being written from replacing the file, which then holds the first
-- cumulative
-- while the map holds the second, with the loop asleep and no mark that would write it again.
pub overtaken-stale :
    (m : Map) (who : List ℕ) (a b : ℕ)
    → (lookup who (advance_all (overtaken who a b) (open_store m)).file ≡ some a)
      × (lookup who (advance_all (overtaken who a b) (open_store m)).ledger.map ≡ some b)
      × ((advance_all (overtaken who a b) (open_store m)).ledger.dirty ≡ false)
      × ((advance_all (overtaken who a b) (open_store m)).phase ≡ asleep)
unfolding advance open_store wake snapshot finish_write flush record_issued
overtaken-stale m who a b = (found who a m, found who b (insert who a m), refl, refl)
  where
    found : (k : List ℕ) (n : ℕ) (l : Map) → lookup k (insert k n l) ≡ some n
    found k n l = ground (arith, lookup-insert k k n l, bytes_beq_iff k k)
