-- ===== src/FetchFile/Tests.antt =====
-- A file fetched in one run.
use directswarm.Base.{
  ℕ, zero, suc, ◌<◌, ◌≡◌, refl, true, false, [], ◌∷◌, ◌++◌, append-nil, sym, ◌∙◌, none, some, All,
  arith, codes, drop, replicate,
}
use directswarm.Base.Results.{err}
use directswarm.Swarm.{SwarmAddress}
use directswarm.Wire.{Bytes}
use directswarm.ChunkStore.{whole}
use directswarm.FetchFile.{
  Output, Disk, io_failed, synced, lost, done, cut, sync_data, Joiner, consume, finish, fetch_from,
  fetch_to_file, read_resume_offset,
}
use directswarm.Resume.{parse, render, hex_of, hex_digit, parse_hex32, to_digit}
use directswarm.Base.Split.{lines_from, strip_cr, strip_prefix}
use directswarm.Base.Decimal.{digits, parse_uint, scan}
use directswarm.FetchFile.Whole.{Fetched, fetch_to_file-Fetched}

abbrev root : SwarmAddress
root = replicate 32 9

nines_small : (n : ℕ) → All (λ b. b < 256) (replicate n 9)
nines_small zero = tt
nines_small (suc n) = (omega arith, nines_small n)

abbrev body : Bytes
body = codes "hello swarm"

-- The whole rest in one buffer.
abbrev joiner : Joiner
joiner start = (drop start body ∷ [], true)

abbrev sound_disk : Disk
sound_disk = record {
  opens = true;
  writes = λ n. whole;
  syncs = λ n. synced;
  commits = λ n. done;
  last_sync = synced;
  last_commit = done;
  removes = true;
}

abbrev empty : Output
empty = record { file = codes "junk"; synced = 4; sidecar = none }

fetch_to_file-Fetched_example :
    Fetched root body
      (fetch_to_file (λ wire. 11) (some (replicate 8 0)) joiner sound_disk root empty)
unfolding read_resume_offset
fetch_to_file-Fetched_example =
    fetch_to_file-Fetched root body (record { size = refl; bytes = nines_small 32 }) (omega arith)
      sound_disk (λ wire. 11) (some (replicate 8 0)) joiner empty (λ wire e. refl)
      (λ start.
        ([], sym (append-nil (drop start body ++ []) ∙ append-nil (drop start body)), λ e. refl))
      (omega arith, omega arith, refl)

fetched_whole :
    (fetch_to_file (λ wire. 11) (some (replicate 8 0)) joiner sound_disk root empty).0.file ≡ body
unfolding fetch_to_file fetch_from consume sync_data finish read_resume_offset
fetched_whole = refl

-- The last sync fails and loses the end of what was written: the fetch fails, and nothing is vouched for.
abbrev failing_disk : Disk
failing_disk = record sound_disk { last_sync = lost 5 }

not_synced :
    fetch_to_file (λ wire. 11) (some (replicate 8 0)) joiner failing_disk root empty
    ≡ (record { file = codes "hello"; synced = 0; sidecar = none }, err io_failed)
unfolding fetch_to_file fetch_from consume sync_data finish read_resume_offset
not_synced = refl

-- The joiner dies, and of the sidecar for the eleven bytes all but the last two are written.
abbrev dying : Joiner
dying start = (drop start body ∷ [], false)

abbrev torn_sidecar : Disk
torn_sidecar = record sound_disk { last_commit = cut 100 }

resumes_earlier :
    read_resume_offset root 11
      (fetch_to_file (λ wire. 11) (some (replicate 8 0)) dying torn_sidecar root empty).0.sidecar
    ≡ 1
unfolding fetch_to_file fetch_from consume sync_data finish read_resume_offset parse render
    lines_from strip_cr strip_prefix hex_of hex_digit parse_hex32 to_digit digits parse_uint scan
resumes_earlier = refl
