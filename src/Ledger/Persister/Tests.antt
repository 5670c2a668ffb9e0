-- ===== src/Ledger/Persister/Tests.antt =====
-- Instances of the theorems on the persister.
use directswarm.Base.{◌≡◌, refl, true, false, List, [], ◌∷◌, some, bytes_eq, lookup}
use directswarm.Ledger.{record_issued}
use directswarm.Ledger.Persister.{
  Event, issues, wakes, snapshots, writes, asleep, open_store, wake, snapshot, finish_write,
  advance, advance_all,
}
use directswarm.Ledger.Persister.Durable.{advance_all-Durable, overtaken, overtaken-stale}

-- The first write fails, the second one brings both cheques.
abbrev retried : List Event
retried =
    issues (7 ∷ []) 10
    ∷ wakes
    ∷ snapshots
    ∷ issues (8 ∷ []) 5
    ∷ writes false
    ∷ wakes
    ∷ snapshots
    ∷ writes true
    ∷ []

advance_all-Durable_example :
    (advance_all retried (open_store [])).file ≡ (advance_all retried (open_store [])).ledger.map
unfolding advance open_store wake snapshot finish_write record_issued
advance_all-Durable_example =
    advance_all-Durable [] retried (tt, (tt, (tt, (tt, (tt, (tt, (tt, (tt, tt)))))))) refl refl

overtaken-stale_example :
    (lookup (7 ∷ []) (advance_all (overtaken (7 ∷ []) 10 25) (open_store [])).file ≡ some 10)
    × (lookup (7 ∷ []) (advance_all (overtaken (7 ∷ []) 10 25) (open_store [])).ledger.map
        ≡ some 25)
    × ((advance_all (overtaken (7 ∷ []) 10 25) (open_store [])).ledger.dirty ≡ false)
    × ((advance_all (overtaken (7 ∷ []) 10 25) (open_store [])).phase ≡ asleep)
overtaken-stale_example = overtaken-stale [] (7 ∷ []) 10 25
