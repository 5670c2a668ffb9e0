-- ===== src/Pacer/Tests.antt =====
-- Runs of the gate, and instances of its theorems.
use directswarm.Base.{
  codes, ◌+◌, ◌*◌, ◌/◌, ◌≤◌, ◌≡◌, ◌↔◌, refl, true, false, [], ◌∷◌, none, some, arith, sum,
  if◌then◌else◌,
}
use directswarm.Cheque.{Order, Peer, Books}
use directswarm.Wire.Fields.{encode}
use directswarm.Wire.Headers.{message}
use directswarm.Pacer.Emission.{Pays, emit, emit-Pays}
use directswarm.Mirror.{try_reserve}
use directswarm.Pacer.{Pacer, start, threshold, window, prune, sum_units, admit}
use directswarm.Pacer.Exposure.{
  Conn, Step, Reach, here, next, IsPaced, exposure, total, start-exposure, admit_iff,
}

abbrev first : Pacer
first = start false none none (some 450_000)

-- Two chunks fit below 105 % of 450000 units, a third does not.
third_refused :
    let p = (admit first 230_000 1).0 in
    let q = (admit p 230_000 2).0 in (admit q 230_000 3).1 ≡ false
unfolding start admit try_reserve threshold prune sum_units window
third_refused = refl

abbrev fetching : Conn
fetching = record {
  pacer = (admit first 230_000 1).0;
  inflight = if (admit first 230_000 1).1 then 230_000 ∷ [] else [];
}

one_try : Reach (record { pacer = first; inflight = [] }) fetching
one_try = next here (Step.tries 230_000 1)

start-exposure_example :
    (exposure fetching.pacer ≤ fetching.pacer.prepaid + threshold fetching.pacer * 105 / 100)
    × (exposure fetching.pacer * 100
        ≤ fetching.pacer.prepaid * 100 + threshold fetching.pacer * 125)
    × (fetching.pacer.mirror.reserved ≡ sum fetching.inflight)
unfolding start threshold
start-exposure_example =
    start-exposure false none none (some 450_000) {c = fetching} (omega arith) one_try

idle : Conn
idle = record { pacer = first; inflight = [] }

idle-IsPaced : IsPaced idle
unfolding idle start threshold
idle-IsPaced = record { fits = omega arith; booked = refl; within = omega arith }

admit_iff_example : ((admit idle.pacer 230_000 1).1 ≡ true) ↔ (
    idle.pacer.mirror.balance
      + idle.pacer.mirror.reserved
      + 230_000
      + total (prune (window idle.pacer) 1 idle.pacer.unvalidated)
    ≤ idle.pacer.prepaid + threshold idle.pacer * 105 / 100)
admit_iff_example = (admit_iff idle 230_000 1 idle-IsPaced).0

-- A peer that asks for 3 a unit, and a debt of 100 units of which 40 are paid.
abbrev cheap : Peer
cheap = record {
  opens = true;
  greets = true;
  response = some (encode (message (((1, codes "exchange") ∷ (2, 3 ∷ []) ∷ []) ∷ [])));
  signs = λ n. some (n ∷ []);
  writes = λ sent. true;
}

abbrev order : Order
order = record { beneficiary = 5 ∷ []; debt_units = 0; issuable = 1_000; max_issue_plur = 500 }

abbrev books : Books
books = record { issued_plur = 0; ledger = record { map = []; dirty = false } }

abbrev indebted : Pacer
indebted = record first { mirror = record { balance = 100; reserved = 0 } }

emit-Pays_example :
    Pays order 40 books indebted
      (emit order cheap books indebted 40 9).0
      ((emit order cheap books indebted 40 9).1, (emit order cheap books indebted 40 9).2)
emit-Pays_example =
    emit-Pays order cheap books indebted 40 9 (omega arith) (omega arith) (omega arith)
