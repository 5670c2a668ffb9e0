-- ===== src/Dispatch/Tests.antt =====
-- The dispatcher at work, and instances of its theorems.
use directswarm.Swarm.{bucket_prefix}
use directswarm.Dispatch.Routing.{place, route, unrouted, of_bucket, uncovered, route_lem}
use directswarm.Wire.{Bytes}
use directswarm.Base.{
  if◌then◌else◌, true, false, Bool, replicate, keep, ◌==◌, ℕ, ◌+◌, ◌*◌, ◌≤◌, ◌≡◌, refl, List, [],
  ◌∷◌, some, length, lookup, lookup_or, insert, remove, nat_eq,
}
use directswarm.Dispatch.{
  Member, Pool, pop, remaining, fresh_dispatch, unused, dialled, rounds, is_exhausted, recycle,
  refill, refilled, criticality, better, best_of, dial, next_member, done,
}
use directswarm.Dispatch.Critical.{Decision, next_member-Decision}
use directswarm.Dispatch.Loop.{Event, fills, joins, turn, serve, begin}
use directswarm.Dispatch.Loop.Dials.{count, serve-dials}
use directswarm.Dispatch.Loop.Active.{lost_all, serve-active}

abbrev member : ℕ → ℕ → Member
member p rate = (record { underlay = []; overlay = rate ∷ []; prefix = p }, rate)

abbrev candidates : List (ℕ × List Member)
candidates = (1, member 1 50 ∷ member 1 20 ∷ []) ∷ (2, member 2 90 ∷ []) ∷ []

-- Two chunks of the first bucket, three of the second.
abbrev work : Pool
work = (1, [] ∷ [] ∷ []) ∷ (2, [] ∷ [] ∷ [] ∷ []) ∷ []

-- The largest bucket first; then the one without a connection.
abbrev day : List Event
day = fills work ∷ fills work ∷ fills work ∷ joins 0 ∷ []

largest_first : (serve 4 day (begin candidates)).1 ≡ member 2 90 ∷ member 1 50 ∷ []
unfolding turn next_member refill is_exhausted criticality better best_of dial done fresh_dispatch
    unused dialled rounds recycle remaining lookup lookup_or insert remove
largest_first = refl

popped : (pop ((1, (4 ∷ []) ∷ (5 ∷ []) ∷ []) ∷ []) 1).1 ≡ some (5 ∷ [])
unfolding pop lookup
popped = refl

next_member-Decision_example :
    Decision work
      (refilled work (fresh_dispatch candidates))
      (next_member work (fresh_dispatch candidates))
next_member-Decision_example = next_member-Decision work (fresh_dispatch candidates)

serve-dials_example :
    (length (serve 4 day (begin candidates)).0.inflight ≤ 4)
    × (count 1 (serve 4 day (begin candidates)).1 ≤ 4 * length (lookup_or [] 1 candidates))
serve-dials_example = serve-dials 4 day candidates 1 ((refl, (refl, tt)), ((refl, tt), tt))

serve-active_example :
    lookup_or 0 1 (serve 4 day (begin candidates)).0.dispatch.active_n
    ≡ count 1 (serve 4 day (begin candidates)).0.inflight
      + count 1 (lost_all 4 day (begin candidates))
serve-active_example = serve-active 4 day candidates 1 ((refl, (refl, tt)), ((refl, tt), tt))

abbrev chunks : List Bytes
chunks = replicate 8 0x80 ∷ replicate 8 0x01 ∷ replicate 8 0x81 ∷ []

-- At depth 1, the second bucket is covered.
abbrev upper : ℕ → Bool
upper p = p == 1

one_uncovered : (route upper false 1 chunks unrouted).fallback ≡ replicate 8 0x01 ∷ []
unfolding place bucket_prefix
one_uncovered = refl

route_lem_example :
    ((direct_only : Bool)
      → lookup_or [] 0 (route upper direct_only 1 chunks unrouted).buckets
        ≡ (if upper 0 then keep (of_bucket 1 0) chunks else []))
    × ((route upper false 1 chunks unrouted).fallback ≡ keep (uncovered upper 1) chunks)
    × ((route upper false 1 chunks unrouted).dropped ≡ 0)
    × ((route upper true 1 chunks unrouted).dropped ≡ length (keep (uncovered upper 1) chunks))
    × ((route upper true 1 chunks unrouted).fallback ≡ [])
route_lem_example = route_lem upper 1 chunks 0
