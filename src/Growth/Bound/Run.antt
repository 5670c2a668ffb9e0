-- ===== src/Growth/Bound/Run.antt =====
-- The invariant of a fetch phase through all its events.
use mathlib.Core.Path.{subst}
use directswarm.Base.{
  ℕ, zero, suc, ◌+◌, ◌-◌, ◌*◌, ◌/◌, ◌^◌, ◌≤◌, ◌<◌, ◌≡◌, ◌≢◌, refl, Bool, List, [], ◌∷◌, ◌++◌,
  Option, none, some, arith, sum, All, u64_max,
}
use directswarm.Swarm.{SwarmAddress}
use directswarm.Mirror.{Mirror, apply, release}
use directswarm.Pacer.{default_rate}
use directswarm.Growth.{Terms, Conn}
use directswarm.Growth.Phase.{
  PhaseMode, Fetched, Phase, At, head, spawning, reserving, draining, refreshing, settling,
  emitting, closing, ended, begin_phase, advance, take_at, Landing, served, failed, panicked, land,
  fetched, finish_task, Event, own, task, hang_up, announce, step, run,
}
use directswarm.Growth.Room.{HasRate, deduction_of, Room, lessened-Room, spend_less}
use directswarm.Growth.Bound.{Known, Fits, Inv, Fits-of, Inv-weaken, advance-Inv}

-- What the cheques of the own steps may cost beyond the rate.
abbrev pub deducted : List Event → ℕ
deducted [] = 0
deducted (own turn ∷ es) = deduction_of turn.peer + deducted es
deducted (task i l ∷ es) = deducted es
deducted (hang_up ∷ es) = deducted es
deducted (announce n ∷ es) = deducted es

abbrev pub Announces : ℕ → Event → Type 0
Announces r (own turn) = HasRate r turn.peer
Announces r _ = Unit {0}

abbrev Taken : List ℕ → Option (ℕ × List ℕ) → Type 0
Taken xs none = Unit
Taken xs (some (price, rest)) = (sum xs ≡ price + sum rest) × (xs ≢ [])

take_at_lem : (i : ℕ) (xs : List ℕ) → Taken xs (take_at i xs)
take_at_lem i [] = tt
take_at_lem zero (x ∷ xs) = (refl, λ e. cc)
take_at_lem (suc i) (x ∷ xs) = go (take_at i xs) (take_at_lem i xs)
  where
    go :
        (o : Option (ℕ × List ℕ))
        → Taken xs o
        → Taken (x ∷ xs) (elim o [ none ↦ none | some (y, rest) ↦ some (y, x ∷ rest) ])
    go none h = tt
    go (some (price, rest)) (h, k) = (omega (arith, h), λ e. cc)

module _ (t : Terms) (r : ℕ) (mode : PhaseMode) (capped : t.max_issue_plur < u64_max) where
  -- A task ends, and the mirror shows no more than before, nor less debt.
  moved-Known :
      (bound : ℕ) (m : Mirror) (rest : List ℕ) (joined : List Fetched) (p : Phase) (a : At)
      → m.balance + m.reserved ≤ p.conn.acct.balance + p.conn.acct.reserved
      → p.conn.acct.balance ≤ m.balance
      → p.running ≢ []
      → Known r bound p a
      → Known r bound
          (record p { conn = record p.conn { acct = m }; running = rest; joined = joined })
          a
  moved-Known bound m rest joined p head less more busy k = tt
  moved-Known bound m rest joined p spawning less more busy k = tt
  moved-Known bound m rest joined p (reserving price) less more busy (small, k) = (
    small,
    spend_less p.conn.books.issued_plur (m.balance + m.reserved + price - p.conn.prepaid)
        (p.conn.acct.balance + p.conn.acct.reserved + price - p.conn.prepaid) r bound (omega arith)
        k,
  )
  moved-Known bound m rest joined p draining less more busy k = tt
  moved-Known bound m rest joined p refreshing less more busy k = tt
  moved-Known bound m rest joined p settling less more busy k = tt
  moved-Known bound m rest joined p (emitting units) less more busy k = omega arith
  moved-Known bound m rest joined p closing less more busy k = tt
  moved-Known bound m rest joined p ended less more busy k = absurd (busy k)

  moved-Inv :
      (bound : ℕ) (m : Mirror) (rest : List ℕ) (joined : List Fetched) (p : Phase)
      → m.balance + m.reserved ≤ p.conn.acct.balance + p.conn.acct.reserved
      → p.conn.acct.balance ≤ m.balance
      → sum rest ≤ m.reserved
      → p.running ≢ []
      → Inv t r mode bound p
      → Inv t r mode bound
          (record p { conn = record p.conn { acct = m }; running = rest; joined = joined })
  moved-Inv bound m rest joined p less more held busy h = record {
    room = lessened-Room t r capped bound p.conn m less h.room;
    held = held;
    fits = Fits-of mode p.conn (record p.conn { acct = m }) refl h.fits;
    known = moved-Known bound m rest joined p p.at less more busy h.known;
    word = h.word;
    enough = h.enough;
  }

  landed-Inv :
      (bound price : ℕ) (l : Landing) (rest : List ℕ) (p : Phase)
      → Taken p.running (some (price, rest))
      → Inv t r mode bound p
      → Inv t r mode bound (record p {
        conn = land l price p.conn;
        running = rest;
        joined = p.joined ++ fetched l ∷ [];
      })
  unfolding apply release
  landed-Inv bound price (served ms bytes) rest p (total, busy) h =
      moved-Inv bound (apply p.conn.acct price) rest _ p (omega (arith, h.room.small, h.held))
        (omega (arith, h.room.small)) (omega (arith, h.held)) busy h
  landed-Inv bound price (failed text) rest p (total, busy) h =
      moved-Inv bound (release p.conn.acct price) rest _ p (omega arith) (omega arith)
        (omega (arith, h.held)) busy h
  landed-Inv bound price (panicked text) rest p (total, busy) h =
      moved-Inv bound p.conn.acct rest _ p (omega arith) (omega arith) (omega (arith, h.held)) busy
        h

  finish_task-Inv :
      (bound i : ℕ) (l : Landing) (p : Phase)
      → Inv t r mode bound p
      → Inv t r mode bound (finish_task i l p)
  unfolding finish_task
  finish_task-Inv bound i l p h = go (take_at i p.running) refl (take_at_lem i p.running)
    where
      go :
          (o : Option (ℕ × List ℕ))
          → take_at i p.running ≡ o
          → Taken p.running o
          → Inv t r mode bound (finish_task i l p)
      go none e k = rw (e, finish_task) h
      go (some (price, rest)) e k = rw (e, finish_task) (landed-Inv bound price l rest p k h)

  noticed-Inv :
      (bound : ℕ) (alive : Bool) (announced : Option ℕ) (p : Phase)
      → Inv t r mode bound p
      → Inv t r mode bound
          (record p { conn = record p.conn { alive = alive; announced = announced } })
  noticed-Inv bound alive announced p h = record {
    room = record {
      small = h.room.small;
      prepaid_small = h.room.prepaid_small;
      issued = h.room.issued;
      rate_low = h.room.rate_low;
      rate_high = h.room.rate_high;
      spend = h.room.spend;
    };
    held = h.held;
    fits = Fits-of mode p.conn (record p.conn { alive = alive; announced = announced }) refl h.fits;
    known = noticed-Known p.at h.known;
    word = h.word;
    enough = h.enough;
  }
    where
      noticed-Known :
          (a : At)
          → Known r bound p a
          → Known r bound
              (record p { conn = record p.conn { alive = alive; announced = announced } })
              a
      noticed-Known head k = tt
      noticed-Known spawning k = tt
      noticed-Known (reserving price) k = k
      noticed-Known draining k = tt
      noticed-Known refreshing k = tt
      noticed-Known settling k = tt
      noticed-Known (emitting units) k = k
      noticed-Known closing k = tt
      noticed-Known ended k = k

  module _ (low : r ≤ default_rate) (cheap : (a : SwarmAddress) → t.price a ≤ 2 ^ 62) where
    run_from-Inv :
        (bound wall_cap : ℕ) (es : List Event) (p : Phase)
        → All (Announces r) es
        → Inv t r mode bound p
        → Inv t r mode (bound + deducted es) (run t mode wall_cap es p)
    unfolding run step
    run_from-Inv bound wall_cap [] p a h = Inv-weaken t r mode bound 0 p h
    run_from-Inv bound wall_cap (own turn ∷ es) p (honest, a) h =
        let next = advance-Inv t r mode capped low cheap bound wall_cap turn p honest h in
        let later = run_from-Inv (bound + deduction_of turn.peer) wall_cap es _ a next in
        let sum_up : bound + deduction_of turn.peer + deducted es
            ≡ bound + (deduction_of turn.peer + deducted es) =
          omega arith in
        subst (λ b. Inv t r mode b (run t mode wall_cap es (advance t mode wall_cap turn p))) sum_up
          later
    run_from-Inv bound wall_cap (task i l ∷ es) p (_, a) h =
        run_from-Inv bound wall_cap es _ a (finish_task-Inv bound i l p h)
    run_from-Inv bound wall_cap (hang_up ∷ es) p (_, a) h =
        run_from-Inv bound wall_cap es _ a (noticed-Inv bound _ p.conn.announced p h)
    run_from-Inv bound wall_cap (announce n ∷ es) p (_, a) h =
        run_from-Inv bound wall_cap es _ a (noticed-Inv bound p.conn.alive (some n) p h)

    pub run-Inv :
        (bound wall_cap now cycle_idx : ℕ) (es : List Event) (c : Conn)
        → All (Announces r) es
        → Room t r bound c
        → Fits mode c
        → t.max_issue_plur * 92 / 100 ≤ bound
        → Inv t r mode (bound + deducted es) (run t mode wall_cap es (begin_phase c cycle_idx now))
    unfolding begin_phase
    run-Inv bound wall_cap now cycle_idx es c a room fits enough =
        run_from-Inv bound wall_cap es _ a (record {
          room = room;
          held = omega arith;
          fits = fits;
          known = tt;
          word = ground arith;
          enough = enough;
        })
