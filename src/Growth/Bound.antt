-- ===== src/Growth/Bound.antt =====
-- The room under the spend cap through a fetch phase, whatever its tasks and the peer do.
pub mod Run
use mathlib.Core.Path.{subst}
use directswarm.Base.{
  ℕ, zero, suc, ◌+◌, ◌-◌, ◌*◌, ◌/◌, ◌%◌, ◌^◌, ◌≤◌, ◌<◌, ◌≡◌, refl, ap, ◌∙◌, inl, inr, Bool, true,
  false, not, ◌&&◌, List, [], ◌∷◌, ◌++◌, Option, none, some, ltb, arith, min, sum, sum-append,
  length, is_empty, if◌then◌else◌, Bool-cases, u64_max, All,
}
use directswarm.Swarm.{SwarmAddress}
use directswarm.Mirror.{Mirror, try_reserve, apply, release, credit}
use directswarm.Pacer.{default_rate, prune, sum_units}
use directswarm.Cheque.{Peer}
use directswarm.Growth.{
  Terms, Conn, spend_would_exceed, refreshed, emit, unvalidated_within, chunk_at, threshold,
}
use directswarm.Growth.Phase.{
  PhaseMode, growth, ceiling, Phase, At, head, spawning, reserving, draining, refreshing, settling,
  emitting, closing, ended, conn_pipeline_depth, begin_phase, track, stop_when, begin, spawn_next,
  limit_of, reserve_with, tally_all, drain, wanted, settle, close, Turn, advance, take_at, Landing,
  served, failed, panicked, land, finish_task, Event, own, task, hang_up, announce, step, run,
}
use directswarm.Growth.Room.{
  over, HasRate, deduction_of, Room, spend_would_exceed_lem, apply-Room, release-Room,
  refreshed-Room, try_reserve-Room, Room-weaken,
}
use directswarm.Growth.Room.Cheques.{emit-Room, Keeps, emit-Keeps}

-- What is known where the loop stands.
abbrev pub Known : ℕ → ℕ → Phase → At → Type 0
Known r bound p (reserving price) =
    (price ≤ 2 ^ 62)
    × (p.conn.books.issued_plur
          + (p.conn.acct.balance + p.conn.acct.reserved + price - p.conn.prepaid) * r
        ≤ bound)
Known r bound p (emitting units) = units ≤ p.conn.acct.balance - p.conn.prepaid
Known r bound p ended = p.running ≡ []
Known r bound p _ = Unit {0}

-- What is prepaid is prepaid after the growth.
abbrev pub Fits : PhaseMode → Conn → Type 0
Fits growth c = c.prepaid ≡ 0
Fits (ceiling lambda_window) c = Unit {0}

module _ (t : Terms) (r : ℕ) (mode : PhaseMode) where
  pub record Inv (bound : ℕ) (p : Phase) : Type 0 where
    pub room : Room t r bound p.conn
    pub held : sum p.running ≤ p.conn.acct.reserved
    pub fits : Fits mode p.conn
    pub known : Known r bound p p.at
    pub word : p.last_threshold ≤ u64_max
    pub enough : t.max_issue_plur * 92 / 100 ≤ bound

  pub begin-Inv :
      (bound wall_cap now : ℕ) (p : Phase) → Inv bound p → Inv bound (begin mode wall_cap now p)
  unfolding begin track stop_when
  begin-Inv bound wall_cap now p h = ground arith

  pub drain-Inv : (bound now : ℕ) (p : Phase) → Inv bound p → Inv bound (drain now p)
  unfolding drain
  drain-Inv bound now p h = ground arith

  pub close-Inv : (bound : ℕ) (p : Phase) → Inv bound p → Inv bound (close p)
  unfolding close
  close-Inv bound p h = ground arith

  settle_with :
      (bound now : ℕ) (p : Phase)
      → Inv bound p
      → (wanted mode now p).1 ≤ p.conn.acct.balance - p.conn.prepaid
      → Inv bound (settle mode now p)
  unfolding settle
  settle_with bound now p h k = ground arith

wanted-le :
    (mode : PhaseMode) (now : ℕ) (p : Phase)
    → Fits mode p.conn
    → (wanted mode now p).1 ≤ p.conn.acct.balance - p.conn.prepaid
unfolding wanted
wanted-le growth now p h = omega arith
wanted-le (ceiling lambda_window) now p h = omega arith

pub Fits-of : (mode : PhaseMode) (c c' : Conn) → c'.prepaid ≡ c.prepaid → Fits mode c → Fits mode c'
Fits-of growth c c' e h = e ∙ h
Fits-of (ceiling lambda_window) c c' e h = tt

refreshed-Keeps : (reply : Option ℕ) (now : ℕ) (c : Conn) → Keeps c (refreshed reply now c)
unfolding refreshed credit
refreshed-Keeps none now c = (refl, refl)
refreshed-Keeps (some n) now c = ground arith

-- The limit leaves all of the connection but the entries that are pruned.
limit_of-Limited :
    (mode : PhaseMode) (now : ℕ) (p : Phase)
    → p.conn.prepaid ≤ 2 ^ 62
    → p.last_threshold ≤ u64_max
    → (left : List (ℕ × ℕ)) × (limit : ℕ) × (limit_of mode now p
        ≡ (record p.conn { unvalidated = left }, limit))
      × (limit ≤ 2 ^ 63)
unfolding limit_of unvalidated_within
limit_of-Limited growth now p h k = (p.conn.unvalidated, p.last_threshold / 2, refl, omega arith)
limit_of-Limited (ceiling lambda_window) now p h k =
    (prune lambda_window now p.conn.unvalidated, _, refl, omega arith)

Known-weaken :
    (r bound more : ℕ) (p : Phase) (a : At) → Known r bound p a → Known r (bound + more) p a
Known-weaken r bound more p head h = h
Known-weaken r bound more p spawning h = h
Known-weaken r bound more p (reserving price) h = omega (arith, h)
Known-weaken r bound more p draining h = h
Known-weaken r bound more p refreshing h = h
Known-weaken r bound more p settling h = h
Known-weaken r bound more p (emitting units) h = h
Known-weaken r bound more p closing h = h
Known-weaken r bound more p ended h = h

pub Inv-weaken :
    (t : Terms) (r : ℕ) (mode : PhaseMode) (bound more : ℕ) (p : Phase)
    → Inv t r mode bound p
    → Inv t r mode (bound + more) p
Inv-weaken t r mode bound more p h = record {
  room = Room-weaken t r bound more p.conn h.room;
  held = h.held;
  fits = h.fits;
  known = Known-weaken r bound more p p.at h.known;
  word = h.word;
  enough = omega (arith, h.enough);
}

module _ (t : Terms) (r : ℕ) (mode : PhaseMode) (capped : t.max_issue_plur < u64_max)
    (low : r ≤ default_rate) (cheap : (a : SwarmAddress) → t.price a ≤ 2 ^ 62) where
  settle-Inv :
      (bound now : ℕ) (p : Phase) → Inv t r mode bound p → Inv t r mode bound (settle mode now p)
  settle-Inv bound now p h = settle_with t r mode bound now p h (wanted-le mode now p h.fits)

  spawn_next-Inv :
      (bound : ℕ) (p : Phase) → Inv t r mode bound p → Inv t r mode bound (spawn_next t mode p)
  unfolding spawn_next
  spawn_next-Inv bound p h =
      let price = t.price (chunk_at t p.cycle_idx) in
      let small = cheap (chunk_at t p.cycle_idx) in
      ground (arith, spend_would_exceed_lem t r capped bound p.conn price h.room small)

  reserve_with-Inv :
      (bound price limit : ℕ) (unvalidated : List (ℕ × ℕ)) (p : Phase)
      → limit ≤ 2 ^ 63
      → Known r bound p (reserving price)
      → Inv t r mode bound p
      → Inv t r mode bound
          (reserve_with price (record p.conn { unvalidated = unvalidated }, limit) p)
  unfolding reserve_with
  reserve_with-Inv bound price limit unvalidated p k known h =
      let m = (try_reserve p.conn.acct price limit).0 in
      elim (Bool-cases (try_reserve p.conn.acct price limit).1) [
        | inl granted ↦
            let (room, grown, kept) =
              try_reserve-Room t r capped bound p.conn price limit m k known.1 h.room
                (ap (λ b. (m, b)) granted) in
            rw granted (record {
              room = record {
                small = room.small;
                prepaid_small = room.prepaid_small;
                issued = room.issued;
                rate_low = room.rate_low;
                rate_high = room.rate_high;
                spend = room.spend;
              };
              held = omega (arith, h.held, grown, sum-append p.running (price ∷ []));
              fits =
                  Fits-of mode p.conn (record p.conn { acct = m; unvalidated = unvalidated }) refl
                    h.fits;
              known = tt;
              word = h.word;
              enough = h.enough;
            })
        | inr refused ↦ rw refused (ground arith)
      ]

  emitting-Inv :
      (bound units : ℕ) (turn : Turn) (p : Phase)
      → HasRate r turn.peer
      → units ≤ p.conn.acct.balance - p.conn.prepaid
      → Inv t r mode bound p
      → Inv t r mode
          (bound + deduction_of turn.peer)
          (record p { at = closing; conn = (emit t turn.peer units turn.now p.conn).0 })
  emitting-Inv bound units turn p honest k h =
      let room = emit-Room t r low turn.peer honest units capped bound turn.now p.conn k h.room in
      let (reserved, prepaid) = emit-Keeps t turn.peer units turn.now p.conn in
      record {
        room = room;
        held = rw reserved h.held;
        fits = Fits-of mode p.conn (emit t turn.peer units turn.now p.conn).0 prepaid h.fits;
        known = tt;
        word = h.word;
        enough = omega (arith, h.enough);
      }

  refreshing-Inv :
      (bound : ℕ) (turn : Turn) (p : Phase)
      → Inv t r mode bound p
      → Inv t r mode bound (record p { at = settling; conn = refreshed turn.reply turn.now p.conn })
  refreshing-Inv bound turn p h =
      let room = refreshed-Room t r capped bound turn.reply turn.now p.conn h.room in
      let (reserved, prepaid) = refreshed-Keeps turn.reply turn.now p.conn in
      record {
        room = room;
        held = rw reserved h.held;
        fits = Fits-of mode p.conn (refreshed turn.reply turn.now p.conn) prepaid h.fits;
        known = tt;
        word = h.word;
        enough = h.enough;
      }

  reserving-Inv :
      (bound price now : ℕ) (p : Phase)
      → Known r bound p (reserving price)
      → Inv t r mode bound p
      → Inv t r mode bound (reserve_with price (limit_of mode now p) p)
  reserving-Inv bound price now p known h =
      let (left, limit, same, small) = limit_of-Limited mode now p h.room.prepaid_small h.word in
      rw same (reserve_with-Inv bound price limit left p small known h)

  pub advance-Inv :
      (bound wall_cap : ℕ) (turn : Turn) (p : Phase)
      → HasRate r turn.peer
      → Inv t r mode bound p
      → Inv t r mode (bound + deduction_of turn.peer) (advance t mode wall_cap turn p)
  unfolding advance
  advance-Inv bound wall_cap turn p honest h = go p.at refl
    where
      at_place : {a : At} → p.at ≡ a → Known r bound p a
      at_place e = subst (Known r bound p) e h.known

      same : (p' : Phase) → Inv t r mode bound p' → Inv t r mode (bound + deduction_of turn.peer) p'
      same p' = Inv-weaken t r mode bound (deduction_of turn.peer) p'

      go :
          (a : At)
          → p.at ≡ a
          → Inv t r mode (bound + deduction_of turn.peer) (advance t mode wall_cap turn p)
      go head e = rw (e, advance) (same _ (begin-Inv t r mode bound wall_cap turn.now p h))
      go spawning e = rw (e, advance) (same _ (spawn_next-Inv bound p h))
      go (reserving price) e =
          rw (e, advance) (same _ (reserving-Inv bound price turn.now p (at_place e) h))
      go draining e = rw (e, advance) (same _ (drain-Inv t r mode bound turn.now p h))
      go refreshing e = rw (e, advance) (same _ (refreshing-Inv bound turn p h))
      go settling e = rw (e, advance) (same _ (settle-Inv bound turn.now p h))
      go (emitting units) e =
          rw (e, advance) (emitting-Inv bound units turn p honest (at_place e) h)
      go closing e = rw (e, advance) (same _ (close-Inv t r mode bound p h))
      go ended e = rw (e, advance) (same p h)
