-- ===== src/ChunkStore/Tests.antt =====
-- A chunk stored and a store opened again, at concrete bytes.
use directswarm.Base.{
  ◌≡◌, refl, ℕ, ◌<◌, zero, suc, ◌∷◌, [], none, some, true, false, replicate, codes, arith, All,
  lookup, insert, contains_key,
}
use directswarm.Swarm.{SwarmAddress, IsAddress}
use directswarm.Resume.PlainHex.{plain_hex}
use directswarm.ChunkStore.{Store, whole, torn, open_store, put, get_chunk, flush_locked}
use directswarm.ChunkStore.Refines.{IsSound}
use directswarm.ChunkStore.Put.{Refined, put-Refined}
use directswarm.ChunkStore.Reopen.{get_chunk-open_store}

abbrev address : ℕ → SwarmAddress
address b = replicate 32 b

address-IsAddress : (b : ℕ) → b < 256 → IsAddress (address b)
address-IsAddress b h = record { size = refl; bytes = go 32 }
  where
    go : (n : ℕ) → All (λ x. x < 256) (replicate n b)
    go zero = tt
    go (suc n) = (h, go n)

-- One chunk stored, and two bytes of a write that was cut short behind it.
abbrev one_chunk : Store
one_chunk = record {
  dat = codes "hello??";
  end_of_data = 5;
  index = (address 1, (0, 5)) ∷ [];
  dirty = 1;
  sidecar = none;
}

one_chunk-IsSound : IsSound one_chunk
unfolding lookup
one_chunk-IsSound = record {
  entries = ((address-IsAddress 1 (omega arith), omega arith, omega arith), tt);
  distinct = (refl, tt);
  within = omega arith;
}

put-Refined_example :
    Refined
      (address 2)
      (codes "world")
      one_chunk
      (put plain_hex whole false (address 2) (codes "world") one_chunk)
put-Refined_example =
    put-Refined plain_hex whole false (address 2) (codes "world") one_chunk
      (address-IsAddress 2 (omega arith)) one_chunk-IsSound

get_chunk-open_store_example :
    (true ≡ true)
    × (get_chunk
          (open_store plain_hex one_chunk.dat (flush_locked plain_hex true one_chunk).0.sidecar)
          (address 1)
        ≡ get_chunk one_chunk (address 1))
unfolding flush_locked
get_chunk-open_store_example =
    get_chunk-open_store plain_hex one_chunk (address 1) one_chunk-IsSound (omega arith)

stored :
    get_chunk (put plain_hex whole false (address 2) (codes "world") one_chunk).0 (address 2)
    ≡ some (codes "world")
unfolding put contains_key lookup get_chunk insert directswarm.ChunkStore.contains
    directswarm.ChunkStore.write_at directswarm.ChunkStore.put_index
stored = refl
