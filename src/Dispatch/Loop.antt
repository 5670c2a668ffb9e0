-- ===== src/Dispatch/Loop.antt =====
-- The dispatch loop of `fetch_scheduled` in rust/ds-net/src/schedule.rs: free slots of the window
-- are
-- filled, and a connection that ends frees its slot. A task that panics is not reported to `done`.
pub mod Dials
pub mod Active
use mathlib.Core.Path.{subst}
use directswarm.Base.{
  ℕ, zero, suc, ◌+◌, ◌-◌, ◌*◌, ◌≤◌, ◌<◌, ◌≡◌, ◌≢◌, refl, ap, sym, ◌∙◌, Bool, true, false, List, [],
  ◌∷◌, ◌++◌, Option, none, some, arith, if◌then◌else◌, ◌==◌, ==_iff, length, All, All-append, keys,
  ltb, Bool-cases, inl, inr, lookup_or, lookup, nat_eq,
}
use directswarm.Dispatch.{
  Member, Pool, Dispatch, fresh_dispatch, unused, dialled, rounds, recycle, recycle_all, refill,
  best_of, dial, dial_best, refilled, next_member, done,
}
use directswarm.Dispatch.Bound.{
  potential, Tagged, hits, unused-recycle, dialled-recycle, unused-dial, dialled-dial, at_self,
  at_other, refilled-potential, dial-potential,
}

pub record Loop : Type 0 where
  pub dispatch : Dispatch
  pub inflight : List Member

-- A slot is filled, from the pool as it is then; the i-th connection ends, or its task panics.
pub data Event : Type 0 where
  fills : Pool → Event
  joins : ℕ → Event
  panics : ℕ → Event

abbrev pub take_out : ℕ → List Member → Option Member × List Member
take_out i [] = (none, [])
take_out zero (m ∷ ms) = (some m, ms)
take_out (suc i) (m ∷ ms) = ((take_out i ms).0, m ∷ (take_out i ms).1)

abbrev pub with_one : Option Member → List Member → List Member
with_one none ms = ms
with_one (some m) ms = m ∷ ms

abbrev pub report_done : Dispatch → Option Member → Dispatch
report_done d none = d
report_done d (some m) = done d m.0.prefix m.1

-- One event, with the member that it dials.
unfoldable pub turn : ℕ → Event → Loop → Loop × Option Member
turn window (fills pool) l =
    if ltb (length l.inflight) window
    then (
      record {
        dispatch = (next_member pool l.dispatch).0;
        inflight = with_one (next_member pool l.dispatch).1 l.inflight;
      },
      (next_member pool l.dispatch).1,
    )
    else (l, none)
turn window (joins i) l = (
  record {
    dispatch = report_done l.dispatch (take_out i l.inflight).0;
    inflight = (take_out i l.inflight).1;
  },
  none,
)
turn window (panics i) l = (record l { inflight = (take_out i l.inflight).1 }, none)

-- Events in turn, with all the members that they dialled.
abbrev pub serve : ℕ → List Event → Loop → Loop × List Member
serve window [] l = (l, [])
serve window (e ∷ events) l =
    let one = turn window e l in
    let rest = serve window events one.0 in (rest.0, with_one one.1 rest.1)

abbrev pub begin : List (ℕ × List Member) → Loop
begin cands = record { dispatch = fresh_dispatch cands; inflight = [] }
