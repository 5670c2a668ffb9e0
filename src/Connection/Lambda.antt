-- ===== src/Connection/Lambda.antt =====
-- `measure_lambda` of rust/ds-net/src/schedule.rs: how long a peer takes to validate a cheque.
pub mod First
use directswarm.Base.{
  ℕ, ◌+◌, ◌*◌, ◌/◌, ◌%◌, ◌^◌, max, Bool, true, false, not, ◌&&◌, ◌||◌, List, [], ◌∷◌, ◌++◌, Option,
  none, some, ltb, ◌==◌, if◌then◌else◌, length, sat_mul, wrap_add,
}
use directswarm.Base.Results.{Result, ok, err}
use directswarm.Swarm.{SwarmAddress}
use directswarm.Wire.{Bytes}
use directswarm.Hex.{HexCrate}
use directswarm.Mirror.{Mirror, try_reserve, apply, release}
use directswarm.Pacer.{Pacer, threshold, emitted, lambda_max_ms}
use directswarm.Cheque.{Error, Peer, Books, Outcome, emit_settlement_cheque}
use directswarm.ChunkStore.{Write, contains, put}
use directswarm.Dispatch.{pop}
use directswarm.Connection.{Shared, Conn}
use directswarm.Connection.Loop.{order, paid}

abbrev pub lambda_probe_units : ℕ
lambda_probe_units = 50_000

abbrev pub lambda_probe_timeout_ms : ℕ
lambda_probe_timeout_ms = 25_000

-- The debt that is built up, `(t * 4 / 10).max(LAMBDA_PROBE_UNITS * 6)`.
abbrev pub target : ℕ → ℕ
target t = max (t * 4 % 2 ^ 64 / 10) (lambda_probe_units * 6)

-- One round of the building: whether the deadline has not passed and the peer is there, and what
-- the
-- fetch and the store's disk do.
pub record Round : Type 0 where
  pub in_time : Bool
  pub alive : Bool
  pub chunk : Option Bytes
  pub disk : Write
  pub syncs : Bool

-- What a fetch of a reserved chunk leaves; the flag says whether the loop goes on.
unfoldable pub fetched :
    HexCrate → Round → SwarmAddress → ℕ → Shared × Pacer → (Shared × Pacer) × Bool
fetched hex r addr price (g, p) = elim r.chunk [
  | none ↦ (
    (record g { fallback = g.fallback ++ addr ∷ [] }, record p { mirror = release p.mirror price }),
    false,
  )
  | some bytes ↦ (
    (
      record g {
        store = (put hex r.disk r.syncs addr bytes g.store).0;
        direct_bytes = wrap_add g.direct_bytes (length bytes);
        direct_ok = wrap_add g.direct_ok 1;
      },
      record p { mirror = apply p.mirror price },
    ),
    true,
  )
]

-- A chunk that was taken from the pool: it is skipped, or refused (and then it is nowhere), or
-- fetched.
unfoldable pub build_with :
    HexCrate → Conn → Round → SwarmAddress → Shared × Pacer → (Shared × Pacer) × Bool
build_with hex c r addr (g, p) =
    let (m, granted) = try_reserve p.mirror (c.price addr) (threshold p / 2) in
    if contains g.store addr
    then ((g, p), true)
    else if granted
    then fetched hex r addr (c.price addr) (g, record p { mirror = m })
    else ((g, p), false)

abbrev pub build_popped :
    HexCrate → Conn → Round → Option SwarmAddress → Shared × Pacer → (Shared × Pacer) × Bool
build_popped hex c r none s = (s, false)
build_popped hex c r (some addr) s = build_with hex c r addr s

unfoldable pub build_round : HexCrate → Conn → ℕ → Round → Shared × Pacer → (Shared × Pacer) × Bool
build_round hex c goal r (g, p) =
    let (pool, popped) = pop g.pool c.prefix in
    if not (r.in_time && r.alive)
    then ((g, p), false)
    else if not (ltb p.mirror.balance goal)
    then ((g, p), false)
    else build_popped hex c r popped (record g { pool = pool }, p)

unfoldable pub build_debt : HexCrate → Conn → ℕ → List Round → Shared × Pacer → Shared × Pacer
build_debt hex c goal [] s = s
build_debt hex c goal (r ∷ rest) s =
    let (s', on) = build_round hex c goal r s in
    let later = build_debt hex c goal rest s' in if on then later else s'

-- A probe: the milliseconds since the cheque when it begins and when its answer is there, and the
-- amount that the peer accepts, or none if the exchange fails.
pub record Probe : Type 0 where
  pub begins : ℕ
  pub accepted : Option ℕ
  pub ends : ℕ

-- The probing loop: two zeros with no other answer between them give the time of the first, and the
-- timeout gives the slowest latency.
unfoldable pub probing : List Probe → Option ℕ → ℕ
probing [] zero_at = lambda_max_ms
probing (p ∷ rest) zero_at =
    if not (ltb p.begins lambda_probe_timeout_ms) then lambda_max_ms else elim p.accepted [
      | none ↦ probing rest zero_at
      | some n ↦ elim zero_at [
        | none ↦ probing rest (if n == 0 then some p.ends else none)
        | some first ↦ if n == 0 then first else probing rest none
      ]
    ]

-- What the probes were answered with, up to the one that ended the loop.
unfoldable pub probed_units : List Probe → Option ℕ → ℕ
probed_units [] zero_at = 0
probed_units (p ∷ rest) zero_at =
    if not (ltb p.begins lambda_probe_timeout_ms) then 0 else elim p.accepted [
      | none ↦ probed_units rest zero_at
      | some n ↦ elim zero_at [
        | none ↦ wrap_add n (probed_units rest (if n == 0 then some p.ends else none))
        | some first ↦ if n == 0 then 0 else wrap_add n (probed_units rest none)
      ]
    ]

-- The cheque for the whole debt, then the probes.
unfoldable pub sweep_and_probe :
    ℕ
    → ℕ
    → List Probe
    → ℕ
    → Shared × Pacer
    → Books × Result Error Outcome
    → (Shared × Pacer) × Option ℕ
sweep_and_probe now later probes units (g, p) (b, err e) = ((record g { books = b }, p), none)
sweep_and_probe now later probes units (g, p) (b, ok o) =
    let n = probed_units probes none in
    let g' = paid b o g in
    let p' = emitted p units o.rate now in
    (
      (
        record g' { refresh_units = wrap_add g'.refresh_units n },
        record p' { settled_units = wrap_add p'.settled_units n; last_refresh = some later },
      ),
      some (probing probes none),
    )

-- `measure_lambda`: too little debt measures nothing.
unfoldable pub measure_lambda :
    HexCrate
    → Conn
    → Peer
    → List Round
    → List Probe
    → ℕ
    → ℕ
    → Shared × Pacer
    → (Shared × Pacer) × Option ℕ
unfolding sweep_and_probe
measure_lambda hex c peer rounds probes now later s =
    let (g, p) = build_debt hex c (target (threshold s.1)) rounds s in
    if ltb p.mirror.balance (lambda_probe_units * 4)
    then ((g, p), none)
    else sweep_and_probe now later probes p.mirror.balance (g, p)
        (emit_settlement_cheque (order c p.mirror.balance) peer g.books)
