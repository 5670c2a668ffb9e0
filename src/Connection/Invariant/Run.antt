-- ===== src/Connection/Invariant/Run.antt =====
-- The invariant of a connection through all its events.
use directswarm.Base.{
  ℕ, zero, suc, ◌+◌, ◌*◌, ◌≤◌, ◌<◌, ◌≡◌, refl, ap, ◌∙◌, inl, inr, Bool, false, not, ◌&&◌, List, [],
  ◌∷◌, Option, none, some, ltb, arith, length, All, Bool-cases, u64_max,
}
use directswarm.Swarm.{SwarmAddress}
use directswarm.Wire.{Bytes}
use directswarm.Hex.{HexCrate}
use directswarm.Mirror.{apply, release}
use directswarm.Pacer.{Pacer}
use directswarm.Cheque.{emit_settlement_cheque}
use directswarm.ChunkStore.{Write}
use directswarm.Dispatch.{pop}
use directswarm.Connection.{
  Shared, Conn, At, head, hung_up, admitting, reaping, refreshing, settling, prepaying, emitting,
  closing, returned, Drive, Turn, State, tasks_len, driven,
}
use directswarm.Connection.Loop.{order, take_work, try_work, admit_next, advance}
use directswarm.Connection.Events.{
  take_at, landed, finish_task, Event, own, task, hang_up, announce, others, step, run,
}
use directswarm.Connection.Invariant.{
  prices, Inv, begin-Inv, give_up-Inv, reap-Inv, finish_refresh-Inv, settle-Inv, prepaid_result-Inv,
  debt_result-Inv, close-Inv, consider-Inv,
}

-- What the list and the rest say of each other when an element was taken out.
abbrev Taken :
    ℕ → List (SwarmAddress × ℕ) → Option ((SwarmAddress × ℕ) × List (SwarmAddress × ℕ)) → Type 0
Taken top xs none = Unit
Taken top xs (some ((addr, price), rest)) =
    (length xs ≡ suc (length rest)) × (prices xs ≡ price + prices rest) × All (λ t. t.1 ≤ top) rest

take_at_lem :
    (top i : ℕ) (xs : List (SwarmAddress × ℕ))
    → All (λ t. t.1 ≤ top) xs
    → Taken top xs (take_at i xs)
take_at_lem top i [] h = tt
take_at_lem top zero (x ∷ xs) (hx, h) = (refl, refl, h)
take_at_lem top (suc i) (x ∷ xs) (hx, h) = go (take_at i xs) (take_at_lem top i xs h)
  where
    go :
        (o : Option ((SwarmAddress × ℕ) × List (SwarmAddress × ℕ)))
        → Taken top xs o
        → Taken top (x ∷ xs) (elim o [ none ↦ none | some (y, rest) ↦ some (y, x ∷ rest) ])
    go none t = tt
    go (some ((addr, price), rest)) (len, sum, all) =
        (omega (arith, len), omega (arith, sum), (hx, all))

module _ (c : Conn) (top : ℕ) (all_cheap : (a : SwarmAddress) → c.price a ≤ top)
    (wide : c.pipeline * top ≤ u64_max) where
  -- What is taken out of the pool, or was pending, is considered.
  try_work-Inv :
      (now : ℕ) (g : Shared) (d : Drive)
      → d.at ≡ admitting false
      → d.finishing ≡ false
      → tasks_len d < c.pipeline
      → Inv c top d
      → Inv c top (try_work c now (take_work c (g, d))).1
  try_work-Inv now g d e f room h = held d.pending refl
    where
      taken : Inv c top (record d { pending = none })
      taken = ground arith

      popped :
          (o : Option SwarmAddress) (g' : Shared)
          → d.pending ≡ none
          → Inv c top (try_work c now ((g', d), o)).1
      popped none g' p = ground arith
      popped (some addr) g' p = consider-Inv c top all_cheap wide now addr g' d e f room h

      held :
          (o : Option SwarmAddress)
          → d.pending ≡ o
          → Inv c top (try_work c now (take_work c (g, d))).1
      held (some addr) p = rw p (
          consider-Inv c top all_cheap wide now addr g (record d { pending = none }) e f room taken)
      held none p =
          rw p (popped (pop g.pool c.prefix).1 (record g { pool = (pop g.pool c.prefix).0 }) p)

  admit_next-Inv :
      (now : ℕ) (halted : Bool) (g : Shared) (d : Drive)
      → d.at ≡ admitting halted
      → Inv c top d
      → Inv c top (admit_next c now halted (g, d)).1
  unfolding admit_next
  admit_next-Inv now halted g d e h =
      elim (Bool-cases (not d.finishing && not halted && ltb (tasks_len d) c.pipeline)) [
        | inl free ↦
            let running_on : halted ≡ false = ground arith in
            rw free
              (try_work-Inv now g d (e ∙ ap admitting running_on) (ground arith) (ground arith) h)
        | inr full ↦ rw full (ground arith)
      ]

  landed-Inv :
      (hex : HexCrate) (chunk : Option Bytes) (w : Write) (syncs : Bool) (addr : SwarmAddress)
      (price : ℕ) (rest : List (SwarmAddress × ℕ)) (g : Shared) (d : Drive)
      → Taken top d.running (some ((addr, price), rest))
      → Inv c top d
      → Inv c top
          (landed hex chunk w syncs addr price
            (g, record d { running = rest; unjoined = d.unjoined + 1 })).1
  unfolding landed apply release
  landed-Inv hex none w syncs addr price rest g d (len, sum, all) h = record {
    slots = omega (arith, h.slots);
    cheap = all;
    reserved = omega (arith, h.reserved);
    resting = λ q. absurd (omega (arith, ap length (h.resting q).1));
    sweeps = h.sweeps;
    sweeping = h.sweeping;
    ended = λ r q. absurd (omega (arith, ap length (h.ended r q).0.1));
  }
  landed-Inv hex (some bytes) w syncs addr price rest g d (len, sum, all) h = record {
    slots = omega (arith, h.slots);
    cheap = all;
    reserved = omega (arith, h.reserved);
    resting = λ q. absurd (omega (arith, ap length (h.resting q).1));
    sweeps = h.sweeps;
    sweeping = h.sweeping;
    ended = λ r q. absurd (omega (arith, ap length (h.ended r q).0.1));
  }

  finish_task-Inv :
      (hex : HexCrate) (i : ℕ) (chunk : Option Bytes) (w : Write) (syncs : Bool) (g : Shared)
      (d : Drive)
      → Inv c top d
      → Inv c top (finish_task hex i chunk w syncs (g, d)).1
  unfolding finish_task
  finish_task-Inv hex i chunk w syncs g d h =
      go (take_at i d.running) refl (take_at_lem top i d.running h.cheap)
    where
      go :
          (o : Option ((SwarmAddress × ℕ) × List (SwarmAddress × ℕ)))
          → take_at i d.running ≡ o
          → Taken top d.running o
          → Inv c top (finish_task hex i chunk w syncs (g, d)).1
      go none e t = rw (e, finish_task) h
      go (some ((addr, price), rest)) e t =
          rw (e, finish_task) (landed-Inv hex chunk w syncs addr price rest g d t h)

  advance-Inv : (t : Turn) (g : Shared) (d : Drive) → Inv c top d → Inv c top (advance c t (g, d)).1
  unfolding advance
  advance-Inv t g d h = go d.at refl
    where
      go : (a : At) → d.at ≡ a → Inv c top (advance c t (g, d)).1
      go head e = rw (e, advance) (begin-Inv c top g d e h)
      go hung_up e = rw (e, advance) (give_up-Inv c top g d e h)
      go (admitting halted) e = rw (e, advance) (admit_next-Inv t.now halted g d e h)
      go (reaping halted) e = rw (e, advance) (reap-Inv c top t.now halted g d e h)
      go (refreshing halted) e =
          rw (e, advance) (finish_refresh-Inv c top t.now t.reply halted g d e h)
      go (settling halted) e = rw (e, advance) (settle-Inv c top t.now halted g d e h)
      go (prepaying halted units) e =
          rw (e, advance)
            (prepaid_result-Inv c top t halted units g d
              (emit_settlement_cheque (order c units) t.peer g.books) e h)
      go (emitting halted units) e =
          rw (e, advance)
            (debt_result-Inv c top t halted units g d
              (emit_settlement_cheque (order c units) t.peer g.books) e h)
      go (closing halted) e = rw (e, advance) (close-Inv c top halted g d e h)
      go (returned residual) e = rw (e, advance) h

  pub step-Inv :
      (hex : HexCrate) (e : Event) (s : State) → Inv c top s.1 → Inv c top (step hex c e s).1
  unfolding step
  step-Inv hex (own t) (g, d) h = advance-Inv t g d h
  step-Inv hex (task i chunk w syncs) (g, d) h = finish_task-Inv hex i chunk w syncs g d h
  step-Inv hex hang_up (g, d) h = ground arith
  step-Inv hex (announce n) (g, d) h = ground arith
  step-Inv hex (others g') (g, d) h = h

  run_from-Inv :
      (hex : HexCrate) (es : List Event) (s : State) → Inv c top s.1 → Inv c top (run hex c es s).1
  unfolding run
  run_from-Inv hex [] s h = h
  run_from-Inv hex (e ∷ es) s h = run_from-Inv hex es (step hex c e s) (step-Inv hex e s h)

  -- If no chunk costs more than a price at which a full pipeline fits into 64 bits, then a
  -- connection that `drive` begins with no reservation in its mirror, after any sequence of events
  -- and whatever other connections do to the shared state: has at most its pipeline of tasks;
  -- reserves in its mirror exactly the prices of the running ones; holds no pending chunk and runs
  -- no task once it is finishing; has had fewer than three final sweeps fail unless it has
  -- returned; and when it has returned it holds no chunk, runs no task, and the value is its unpaid
  -- debt.
  pub run-Inv :
      (hex : HexCrate) (es : List Event) (g : Shared) (p : Pacer)
      → p.mirror.reserved ≡ 0
      → Inv c top (run hex c es (g, driven p)).1
  unfolding driven
  run-Inv hex es g p h = run_from-Inv hex es (g, driven p) (ground arith)
