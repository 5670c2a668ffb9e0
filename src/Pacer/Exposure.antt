-- ===== src/Pacer/Exposure.antt =====
-- What a connection can owe in the worst case, over every order of its events.
use directswarm.Base.{
  ℕ, ◌+◌, ◌-◌, ◌*◌, ◌/◌, ◌^◌, ◌≤◌, ◌<◌, ◌≡◌, refl, ◌⊎◌, ◌↔◌, Bool, true, false, List, [], ◌∷◌, ◌++◌,
  Option, some, arith, sum, sum-append, if◌then◌else◌, sat_mul, u64_max, wrap_add,
}
use directswarm.Mirror.{Mirror, try_reserve, apply, release, credit}
use directswarm.PeerState.{PeerState}
use directswarm.Pacer.{
  start, Pacer, threshold, window, prune, sum_units, unvalidated_sum, admit, emitted,
  prepaid_emitted, refreshed,
}

-- The units of all the cheques on the list.
abbrev pub total : List (ℕ × ℕ) → ℕ
total [] = 0
total ((at, units) ∷ rest) = units + total rest

pub total-append :
    (xs : List (ℕ × ℕ)) (at units : ℕ) → total (xs ++ (at, units) ∷ []) ≡ total xs + units
total-append [] at units = omega arith
total-append ((_, n) ∷ xs) at units = omega (arith, total-append xs at units)

total-prune-le : (w now : ℕ) (xs : List (ℕ × ℕ)) → total (prune w now xs) ≤ total xs
unfolding prune
total-prune-le w now [] = omega arith
total-prune-le w now ((at, units) ∷ xs) = ground (arith, total-prune-le w now xs)

sum_units-total : (xs : List (ℕ × ℕ)) → total xs < 2 ^ 64 → sum_units xs ≡ total xs
unfolding sum_units
sum_units-total [] h = refl
sum_units-total ((at, units) ∷ xs) h = omega (arith, sum_units-total xs (omega arith))

-- The most that the gate allows, 105 % of the threshold.
abbrev pub ceiling : Pacer → ℕ
ceiling p = threshold p * 105 / 100

abbrev pub exposure : Pacer → ℕ
exposure p = p.mirror.balance + p.mirror.reserved + total p.unvalidated

-- The numbers of the gate fit into 64 bits.
abbrev pub Fits : Pacer → Type 0
Fits p = p.prepaid + threshold p * 105 < u64_max

-- A reservation is all or nothing, and one that is made stays within the limit.
abbrev Reserves : Mirror → ℕ → ℕ → Mirror × Bool → Type 0
Reserves s price limit r =
    ((r.1 ≡ true)
      × (r.0.balance ≡ s.balance)
      × (r.0.reserved ≡ s.reserved + price)
      × (s.balance + s.reserved + price ≤ limit))
    ⊎ ((r.1 ≡ false)
        × (r.0.balance ≡ s.balance)
        × (r.0.reserved ≡ s.reserved)
        × (limit < s.balance + s.reserved + price))

try_reserve-Reserves :
    (s : Mirror) (price limit : ℕ)
    → limit < u64_max
    → Reserves s price limit (try_reserve s price limit)
unfolding try_reserve
try_reserve-Reserves s price limit h = ground arith

module _ (p : Pacer) (price now : ℕ) (fits : Fits p)
    (old : exposure p ≤ p.prepaid + ceiling p) where
  abbrev after : Pacer
  after = (admit p price now).0

  limit : ℕ
  limit = wrap_add p.prepaid (sat_mul (threshold p) 105 / 100) - (unvalidated_sum p now).1

  gate_limit : limit < u64_max
  unfolding limit
  gate_limit = omega arith

  gate_room : limit + total (prune (window p) now p.unvalidated) ≡ p.prepaid + ceiling p
  unfolding limit unvalidated_sum
  gate_room = omega (
    arith,
    total-prune-le (window p) now p.unvalidated,
    sum_units-total (prune (window p) now p.unvalidated),
  )

  admit-exposure :
      (exposure after ≤ after.prepaid + ceiling after)
      × (after.prepaid ≡ p.prepaid)
      × (after.announced ≡ p.announced)
      × (after.mirror.balance ≡ p.mirror.balance)
      × (after.mirror.reserved
          ≡ (if (admit p price now).1 then p.mirror.reserved + price else p.mirror.reserved))
  unfolding admit limit threshold
  admit-exposure = ground (
    arith,
    gate_room,
    total-prune-le (window p) now p.unvalidated,
    try_reserve-Reserves p.mirror price limit gate_limit,
  )

-- A connection: its pacer and the prices of the fetches in flight.
pub record Conn : Type 0 where
  pub pacer : Pacer
  pub inflight : List ℕ

-- One event of a connection's life, in any order: a fetch is tried, served or failed; a cheque for
-- part of the debt or a prepayment has gone out; the peer was asked for a refresh, or announced a
-- threshold that is not lower. The amounts stay within 64 bits.
pub data Step (c : Conn) : Conn → Type 0 where
  tries :
      (price now : ℕ)
      → Step c (record {
        pacer = (admit c.pacer price now).0;
        inflight = if (admit c.pacer price now).1 then price ∷ c.inflight else c.inflight;
      })
  serves :
      (price : ℕ) (before behind : List ℕ)
      → c.inflight ≡ before ++ price ∷ behind
      → Step c (record {
        pacer = record (c.pacer) { mirror = apply (c.pacer.mirror) price };
        inflight = before ++ behind;
      })
  fails :
      (price : ℕ) (before behind : List ℕ)
      → c.inflight ≡ before ++ price ∷ behind
      → Step c (record {
        pacer = record (c.pacer) { mirror = release (c.pacer.mirror) price };
        inflight = before ++ behind;
      })
  emits :
      (units rate now : ℕ)
      → units ≤ c.pacer.mirror.balance
      → Step c (record c { pacer = emitted c.pacer units rate now })
  prepays :
      (units rate now : ℕ)
      → Fits (record (c.pacer) { prepaid = c.pacer.prepaid + units })
      → Step c (record c { pacer = prepaid_emitted c.pacer units rate now })
  refreshes :
      (reply : Option ℕ) (now : ℕ) → Step c (record c { pacer = refreshed c.pacer reply now })
  announces :
      (t : ℕ)
      → threshold c.pacer ≤ threshold (record (c.pacer) { announced = some t })
      → Fits (record (c.pacer) { announced = some t })
      → Step c (record c { pacer = record (c.pacer) { announced = some t } })

pub data Reach (c : Conn) : Conn → Type 0 where
  here : Reach c c
  next : {d e : Conn} → Reach c d → Step d e → Reach c e

-- What holds between any two events.
pub record IsPaced (c : Conn) : Type 0 where
  pub fits : Fits c.pacer
  pub booked : c.pacer.mirror.reserved ≡ sum c.inflight
  pub within : exposure c.pacer ≤ c.pacer.prepaid + ceiling c.pacer

tries-IsPaced :
    (c : Conn) (price now : ℕ)
    → IsPaced c
    → IsPaced (record {
      pacer = (admit c.pacer price now).0;
      inflight = if (admit c.pacer price now).1 then price ∷ c.inflight else c.inflight;
    })
unfolding threshold
tries-IsPaced c price now v = ground (arith, admit-exposure c.pacer price now v.fits v.within)

sum_middle : (ns : List ℕ) (n : ℕ) (ms : List ℕ) → sum (ns ++ n ∷ ms) ≡ n + sum (ns ++ ms)
sum_middle ns n ms = omega (arith, sum-append ns (n ∷ ms), sum-append ns ms)

Step-IsPaced : {c d : Conn} → Step c d → IsPaced c → IsPaced d
unfolding threshold apply release credit emitted prepaid_emitted refreshed
Step-IsPaced {c} (tries price now) v = tries-IsPaced c price now v
Step-IsPaced {c} (serves price before behind e) v =
    ground (arith, sum_middle before price behind, v.fits, v.within, v.booked)
Step-IsPaced {c} (fails price before behind e) v =
    ground (arith, sum_middle before price behind, v.fits, v.within, v.booked)
Step-IsPaced {c} (emits units rate now h) v =
    ground (arith, total-append c.pacer.unvalidated now units)
Step-IsPaced {c} (prepays units rate now h) v =
    ground (arith, total-append c.pacer.unvalidated now units)
Step-IsPaced {c} (refreshes reply now) v = ground arith
Step-IsPaced {c} (announces t h f) v = ground arith

Reach-IsPaced : {c d : Conn} → Reach c d → IsPaced c → IsPaced d
Reach-IsPaced here v = v
Reach-IsPaced (next r s) v = Step-IsPaced s (Reach-IsPaced r v)

-- Over every order of events from the start of a connection, in which the peer's surplus and
-- threshold
-- stay within 64 bits, no announcement lowers the threshold and no cheque pays for more than is
-- owed:
-- the debt, the reservations of the fetches in flight and the cheques that may still be validating
-- together stay within what is prepaid and 105 % of the announced threshold, so within what is
-- prepaid
-- and the 125 % at which the peer disconnects; and exactly the fetches in flight are reserved.
pub start-exposure :
    (prepay : Bool) (known : Option PeerState) (warm announced : Option ℕ) {c : Conn}
    → Fits (start prepay known warm announced)
    → Reach (record { pacer = start prepay known warm announced; inflight = [] }) c
    → (exposure c.pacer ≤ c.pacer.prepaid + threshold c.pacer * 105 / 100)
      × (exposure c.pacer * 100 ≤ c.pacer.prepaid * 100 + threshold c.pacer * 125)
      × (c.pacer.mirror.reserved ≡ sum c.inflight)
unfolding start
start-exposure prepay known warm announced f r =
    let v = Reach-IsPaced r (record { fits = f; booked = refl; within = omega arith }) in
    (v.within, omega (arith, v.within), v.booked)

-- Between any two events the gate admits a fetch exactly when its price fits below 105 % of the
-- threshold and what is prepaid, beside the debt, the reservations and the cheques still inside the
-- validation window; when it refuses, debt and reservations are unchanged.
pub admit_iff :
    (c : Conn) (price now : ℕ)
    → IsPaced c
    → let p = c.pacer in
      let r = admit p price now in
      ((r.1 ≡ true) ↔ (
        p.mirror.balance + p.mirror.reserved + price + total (prune (window p) now p.unvalidated)
        ≤ p.prepaid + threshold p * 105 / 100))
      × (r.1 ≡ false
          → (r.0.mirror.balance ≡ p.mirror.balance) × (r.0.mirror.reserved ≡ p.mirror.reserved))
unfolding admit limit
admit_iff c price now v =
    let room = gate_room c.pacer price now v.fits v.within in
    let reserves =
      try_reserve-Reserves c.pacer.mirror price _ (gate_limit c.pacer price now v.fits v.within) in
    (
      (λ e. ground (arith, room, reserves), λ h. ground (arith, room, reserves)),
      λ e. ground (arith, reserves),
    )
