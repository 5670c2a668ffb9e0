-- ===== src/Connection/Invariant.antt =====
-- What holds of a connection between any two steps, whatever others do meanwhile.
pub mod Run
use native.Mathlib.Nat.{suc-mul, mul-le-mul_right}
use directswarm.Base.{
  ℕ, zero, suc, ◌+◌, ◌-◌, ◌*◌, ◌≤◌, ◌<◌, ◌≡◌, ◌≢◌, refl, ap, sym, ◌∙◌, ◌⊎◌, inl, inr, Bool, true,
  false, not, ◌&&◌, ◌||◌, List, [], ◌∷◌, ◌++◌, Option, none, some, ltb, ◌==◌, if◌then◌else◌, arith,
  length, length-append, is_empty, All, All-append, Bool-cases, Option-cases, wrap_add, u64_max,
  max,
}
use directswarm.Base.Results.{Result, ok, err}
use directswarm.Swarm.{SwarmAddress}
use directswarm.Wire.{Bytes}
use directswarm.Hex.{HexCrate}
use directswarm.Mirror.{try_reserve, apply, release, credit}
use directswarm.Pacer.{Pacer, admit, unvalidated_sum, emitted, prepaid_emitted, settle_reply}
use directswarm.Cheque.{Error, Books, Outcome, emit_settlement_cheque}
use directswarm.ChunkStore.{Write, contains, put}
use directswarm.Dispatch.{pop}
use directswarm.Connection.{
  refresh_min_interval, Shared, Conn, At, head, hung_up, admitting, reaping, refreshing, settling,
  prepaying, emitting, closing, returned, Drive, Turn, State, goto, tasks_len, tasks_empty, is_none,
  unpaid, due, shed,
}
use directswarm.Connection.Loop.{
  begin, give_up, consider, take_work, try_work, admit_next, reap, finish_refresh, settle,
  prepaid_result, sweep_failed, debt_result, close, advance,
}
use directswarm.Connection.Events.{
  take_at, landed, finish_task, Event, own, task, hang_up, announce, others, step, run,
}

-- The reserved prices of the running tasks.
abbrev pub prices : List (SwarmAddress × ℕ) → ℕ
prices [] = 0
prices ((addr, price) ∷ rest) = price + prices rest

-- What the loop has returned.
abbrev pub result : At → Option ℕ
result (returned residual) = some residual
result _ = none

-- The connection is at rest: nothing is held and nothing runs.
abbrev pub AtRest : Drive → Type 0
AtRest d = (d.pending ≡ none) × (d.running ≡ [])

module _ (c : Conn) (top : ℕ) where
  pub record Inv (d : Drive) : Type 0 where
    pub slots : length d.running + d.unjoined ≤ c.pipeline
    pub cheap : All (λ t. t.1 ≤ top) d.running
    pub reserved : d.pacer.mirror.reserved ≡ prices d.running
    pub resting : d.finishing ≡ true → AtRest d
    pub sweeps : d.sweep_attempts ≤ 3
    pub sweeping : result d.at ≡ none → d.sweep_attempts < 3
    pub ended :
        (residual : ℕ) → result d.at ≡ some residual → AtRest d × (residual ≡ unpaid d.pacer)

prices-append :
    (xs : List (SwarmAddress × ℕ)) (addr : SwarmAddress) (price : ℕ)
    → prices (xs ++ (addr, price) ∷ []) ≡ prices xs + price
prices-append [] addr price = omega arith
prices-append ((a, p) ∷ xs) addr price = omega (arith, prices-append xs addr price)

prices-le :
    (top : ℕ) (xs : List (SwarmAddress × ℕ)) → All (λ t. t.1 ≤ top) xs → prices xs ≤ length xs * top
prices-le top [] h = omega arith
prices-le top ((a, p) ∷ xs) (hp, h) = omega (arith, suc-mul (length xs) top, prices-le top xs h)

admit-reserved :
    (p : Pacer) (price now : ℕ)
    → (admit p price now).0.mirror.reserved
      ≡ (if (admit p price now).1 then wrap_add p.mirror.reserved price else p.mirror.reserved)
unfolding admit try_reserve unvalidated_sum
admit-reserved p price now = ground arith

module _ (c : Conn) (top : ℕ) where
  pub begin-Inv :
      (g : Shared) (d : Drive) → d.at ≡ head → Inv c top d → Inv c top (begin c (g, d)).1
  unfolding begin
  begin-Inv g d e h = ground arith

  pub give_up-Inv :
      (g : Shared) (d : Drive) → d.at ≡ hung_up → Inv c top d → Inv c top (give_up (g, d)).1
  unfolding give_up
  give_up-Inv g d e h = ground arith

  pub reap-Inv :
      (now : ℕ) (halted : Bool) (g : Shared) (d : Drive)
      → d.at ≡ reaping halted
      → Inv c top d
      → Inv c top (reap now halted (g, d)).1
  unfolding reap
  reap-Inv now halted g d e h = ground arith

  pub finish_refresh-Inv :
      (now : ℕ) (reply : Option ℕ) (halted : Bool) (g : Shared) (d : Drive)
      → d.at ≡ refreshing halted
      → Inv c top d
      → Inv c top (finish_refresh now reply halted (g, d)).1
  unfolding finish_refresh settle_reply credit
  finish_refresh-Inv now reply halted g d e h = ground arith

  pub settle-Inv :
      (now : ℕ) (halted : Bool) (g : Shared) (d : Drive)
      → d.at ≡ settling halted
      → Inv c top d
      → Inv c top (settle c now halted (g, d)).1
  unfolding settle
  settle-Inv now halted g d e h = ground arith

  pub prepaid_result-Inv :
      (t : Turn) (halted : Bool) (units : ℕ) (g : Shared) (d : Drive)
      (r : Books × Result Error Outcome)
      → d.at ≡ prepaying halted units
      → Inv c top d
      → Inv c top (prepaid_result t halted units (g, d) r).1
  unfolding prepaid_result prepaid_emitted
  prepaid_result-Inv t halted units g d r e h = ground arith

  pub debt_result-Inv :
      (t : Turn) (halted : Bool) (units : ℕ) (g : Shared) (d : Drive)
      (r : Books × Result Error Outcome)
      → d.at ≡ emitting halted units
      → Inv c top d
      → Inv c top (debt_result t halted units (g, d) r).1
  unfolding debt_result emitted credit sweep_failed
  debt_result-Inv t halted units g d r e h = ground arith

  pub close-Inv :
      (halted : Bool) (g : Shared) (d : Drive)
      → d.at ≡ closing halted
      → Inv c top d
      → Inv c top (close halted (g, d)).1
  unfolding close
  close-Inv halted g d e h = ground arith

module _ (c : Conn) (top : ℕ) (all_cheap : (a : SwarmAddress) → c.price a ≤ top)
    (wide : c.pipeline * top ≤ u64_max) where
  -- With a free slot, one more price does not wrap around.
  room-reserved :
      (addr : SwarmAddress) (d : Drive)
      → tasks_len d < c.pipeline
      → Inv c top d
      → wrap_add d.pacer.mirror.reserved (c.price addr) ≡ prices d.running + c.price addr
  room-reserved addr d room h =
      let one_more : suc (length d.running) ≤ c.pipeline = omega (arith, h) in
      omega (
        arith,
        h,
        prices-le top d.running h.cheap,
        suc-mul (length d.running) top,
        mul-le-mul_right top one_more,
        all_cheap addr,
      )

  pub consider-Inv :
      (now : ℕ) (addr : SwarmAddress) (g : Shared) (d : Drive)
      → d.at ≡ admitting false
      → d.finishing ≡ false
      → tasks_len d < c.pipeline
      → Inv c top d
      → Inv c top (consider c now addr (g, d)).1
  unfolding consider
  consider-Inv now addr g d e f room h =
      let p = record d.pacer { avg_price = max (c.price addr) 1 } in
      let grown = admit-reserved p (c.price addr) now in
      let exact = room-reserved addr d room h in
      let more = prices-append d.running addr (c.price addr) in
      let longer = length-append d.running ((addr, c.price addr) ∷ []) in
      let still = h.sweeping (ap result e) in
      elim (Bool-cases (contains g.store addr)) [
        | inl there ↦ rw there h
        | inr fresh ↦ elim (Bool-cases (admit p (c.price addr) now).1) [
          | inl granted ↦
              rw (fresh, granted)
                (record {
                  slots = omega (arith, longer);
                  cheap = All-append (λ t. t.1 ≤ top) d.running _ h.cheap (all_cheap addr, tt);
                  reserved = ground (arith, grown, granted, exact, more, h.reserved);
                  resting = λ q. absurd (cc);
                  sweeps = h.sweeps;
                  sweeping = λ q. still;
                  ended = λ r q. absurd (cc);
                })
          | inr refused ↦
              rw (fresh, refused)
                (record {
                  slots = h.slots;
                  cheap = h.cheap;
                  reserved = ground (arith, grown, refused, h.reserved);
                  resting = λ q. absurd (cc);
                  sweeps = h.sweeps;
                  sweeping = λ q. still;
                  ended = λ r q. absurd (cc);
                })
        ]
      ]
