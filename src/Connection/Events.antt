-- ===== src/Connection/Events.antt =====
-- A connection's loop among what happens around it: its fetch tasks end, the peer hangs up, other
-- connections run.
use directswarm.Base.{
  ℕ, zero, suc, ◌+◌, Bool, false, List, [], ◌∷◌, ◌++◌, Option, none, some, length, wrap_add,
}
use directswarm.Swarm.{SwarmAddress}
use directswarm.Wire.{Bytes}
use directswarm.Hex.{HexCrate}
use directswarm.Mirror.{apply, release}
use directswarm.ChunkStore.{Write, put}
use directswarm.Connection.{Shared, Conn, Turn, State}
use directswarm.Connection.Loop.{advance}

-- The task at a place of the list, and the others.
abbrev pub take_at {ℓ} : {A : Type ℓ} → ℕ → List A → Option (A × List A)
take_at i [] = none
take_at zero (x ∷ xs) = some (x, xs)
take_at (suc i) (x ∷ xs) = elim (take_at i xs) [ none ↦ none | some (y, rest) ↦ some (y, x ∷ rest) ]

-- What a fetch task does with its chunk, or without one. The result of the put is not looked at.
unfoldable pub landed : HexCrate → Option Bytes → Write → Bool → SwarmAddress → ℕ → State → State
landed hex none w syncs addr price (g, d) = (
  record g { fallback = g.fallback ++ addr ∷ [] },
  record d { pacer = record d.pacer { mirror = release d.pacer.mirror price } },
)
landed hex (some bytes) w syncs addr price (g, d) = (
  record g {
    store = (put hex w syncs addr bytes g.store).0;
    direct_bytes = wrap_add g.direct_bytes (length bytes);
    direct_ok = wrap_add g.direct_ok 1;
  },
  record d { pacer = record d.pacer { mirror = apply d.pacer.mirror price } },
)

unfoldable pub finish_task : HexCrate → ℕ → Option Bytes → Write → Bool → State → State
finish_task hex i chunk w syncs (g, d) = elim (take_at i d.running) [
  | none ↦ (g, d)
  | some ((addr, price), rest) ↦
      landed hex chunk w syncs addr price
        (g, record d { running = rest; unjoined = d.unjoined + 1 })
]

-- What happens next: the connection's own step, the end of one of its tasks, the peer's hanging up
-- or announcing a threshold, or anything that others do to what is shared.
pub data Event : Type 0 where
  own : Turn → Event
  task : (i : ℕ) (chunk : Option Bytes) (w : Write) (syncs : Bool) → Event
  hang_up : Event
  announce : ℕ → Event
  others : Shared → Event

unfoldable pub step : HexCrate → Conn → Event → State → State
step hex c (own t) s = advance c t s
step hex c (task i chunk w syncs) s = finish_task hex i chunk w syncs s
step hex c hang_up (g, d) = (g, record d { alive = false })
step hex c (announce n) (g, d) = (g, record d { pacer = record d.pacer { announced = some n } })
step hex c (others g') (g, d) = (g', d)

unfoldable pub run : HexCrate → Conn → List Event → State → State
run hex c [] s = s
run hex c (e ∷ es) s = run hex c es (step hex c e s)
