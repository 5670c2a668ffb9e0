-- ===== src/Cheque/Concurrent.antt =====
-- Settlement tasks that share the spend counter: the counter's atomic operations in
-- `emit_settlement_cheque` of rust/ds-net/src/direct.rs, in any order. Every task adds its amount
-- first, tests what it read, and takes the amount back when the test or the sending fails.
pub mod Cap
use directswarm.Base.{
  ℕ, zero, suc, ◌+◌, ◌*◌, ◌-◌, ◌^◌, ◌≤◌, ◌<◌, ◌≡◌, refl, Bool, true, false, List, [], ◌∷◌, Option,
  none, some, arith, if◌then◌else◌, wrap_add, wrap_sub, u64_max,
}
use directswarm.Cheque.{over_cap, reserve}

-- A call that holds an amount in the counter: what it read when it added, or that it passed the
-- guard, or that its cheque is out.
pub data Phase : Type 0 where
  checking : ℕ → Phase
  granted committed : Phase

abbrev pub Call : Type 0
Call = ℕ × Phase

-- The calls stand newest first.
pub record Shared : Type 0 where
  pub issued : ℕ
  pub calls : List Call

-- A new call adds its amount; the guard of the i-th call is tested; the i-th call's sending ends.
pub data Event : Type 0 where
  adds : ℕ → Event
  decides : ℕ → Event
  ends : ℕ → Bool → Event

abbrev pub decide : ℕ → ℕ → Phase → Option Phase
decide cap plur (checking before) = if over_cap before plur cap then none else some granted
decide cap plur granted = some granted
decide cap plur committed = some committed

abbrev pub finish : Bool → Phase → Option Phase
finish success (checking before) = some (checking before)
finish success granted = if success then some committed else none
finish success committed = some committed

abbrev pub replace : ℕ → Option Phase → List Call → List Call × ℕ
replace plur none rest = (rest, plur)
replace plur (some phase) rest = ((plur, phase) ∷ rest, 0)

-- The calls after the i-th one changed or left, and the amount that it takes out of the counter.
unfoldable pub alter : (ℕ → Phase → Option Phase) → ℕ → List Call → List Call × ℕ
alter f i [] = ([], 0)
alter f zero (c ∷ cs) = replace c.0 (f c.0 c.1) cs
alter f (suc i) (c ∷ cs) = (c ∷ (alter f i cs).0, (alter f i cs).1)

abbrev pub after : Shared → List Call × ℕ → Shared
after s (calls, gone) = record { issued = wrap_sub s.issued gone; calls = calls }

unfoldable pub step : ℕ → Event → Shared → Shared
step cap (adds plur) s = record {
  issued = wrap_add s.issued plur;
  calls = (plur, checking s.issued) ∷ s.calls;
}
step cap (decides i) s = after s (alter (decide cap) i s.calls)
step cap (ends i success) s = after s (alter (λ plur. finish success) i s.calls)

abbrev pub exec : ℕ → List Event → Shared → Shared
exec cap [] s = s
exec cap (e ∷ events) s = exec cap events (step cap e s)

abbrev pub unspent : Shared
unspent = record { issued = 0; calls = [] }

-- All that is held in the counter, and what passed the guard or is out.
unfoldable pub held : List Call → ℕ
held [] = 0
held (c ∷ cs) = c.0 + held cs

abbrev pub passed : ℕ → Phase → ℕ
passed plur (checking before) = 0
passed plur granted = plur
passed plur committed = plur

unfoldable pub approved : List Call → ℕ
approved [] = 0
approved (c ∷ cs) = passed c.0 c.1 + approved cs
