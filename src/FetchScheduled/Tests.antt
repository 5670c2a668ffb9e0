-- ===== src/FetchScheduled/Tests.antt =====
-- A peer that is gone before it was asked, and the fallback that takes its chunks.
use directswarm.Base.{
  refl, inl, true, false, List, [], ◌∷◌, some, arith, codes, lookup, lookup_or, nat_eq,
}
use directswarm.Resume.PlainHex.{plain_hex}
use directswarm.ChunkStore.{whole}
use directswarm.Connection.{Conn, Drive, driven}
use directswarm.Connection.Samples.{address, tick, conn, pool_of_two, fresh_pacer}
use directswarm.Connection.Loop.{begin, give_up, advance}
use directswarm.Connection.Events.{own, hang_up, step}
use directswarm.Connection.Conserve.World.{Moment, at, step_at, run_world}
use directswarm.FetchScheduled.{Forward, conclude}
use directswarm.FetchScheduled.Stored.{Settled, conclude-run_world}

abbrev one_connection : List (Conn × Drive)
one_connection = (conn, driven fresh_pacer) ∷ []

abbrev short_day : List Moment
short_day = at 0 hang_up ∷ at 0 (own (tick 1)) ∷ at 0 (own (tick 2)) ∷ []

-- The fallback has every chunk.
abbrev answering : Forward
answering = record { fetches = λ a. some (codes "chunk"); disk = λ a. whole; syncs = λ a. true }

conclude-run_world_example : Settled (address 1) (
    conclude plain_hex answering false
      (run_world plain_hex short_day (pool_of_two, one_connection)).0)
unfolding run_world step_at step advance begin give_up driven lookup lookup_or
conclude-run_world_example =
    conclude-run_world plain_hex answering (λ a. (refl, omega arith)) 10_000 short_day (address 1)
      pool_of_two one_connection (((λ a. omega arith), omega arith, (fresh_pacer, refl, refl)), tt)
      (tt, (tt, (tt, tt))) (inl (7, inl refl)) ((0, refl), tt)
