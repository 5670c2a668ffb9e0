-- ===== src/PeerState/Tests.antt =====
-- The source's merge test, and an instance of the summary.
use directswarm.Base.{
  ℕ, zero, suc, ◌<◌, All, arith, replicate, ◌≡◌, refl, true, false, List, [], ◌∷◌, none, some,
  lookup, insert, bytes_eq,
}
use directswarm.Resume.PlainHex.{plain_hex}
use directswarm.PeerState.File.{save, open_file}
use directswarm.PeerState.File.RoundTrip.{open_file-save}
use directswarm.PeerState.{Store, unknown, merge, get, or_default, observe}
use directswarm.PeerState.Merge.{Event, replay, own, Summary, replay-Summary}

abbrev peer : List ℕ
peer = 7 ∷ 7 ∷ []

abbrev history : List Event
history =
    (
      peer,
      record {
        threshold = 9_450_000;
        lambda_ms = some 1210;
        settled_units_delta = 1000;
        service_cps_x10 = some 200;
        surplus_units_abs = some 42;
        clean_close = true;
      },
      1_700_000_000,
    )
    ∷ (
      peer,
      record {
        threshold = 1_350_000;
        lambda_ms = none;
        settled_units_delta = 500;
        service_cps_x10 = none;
        surplus_units_abs = none;
        clean_close = false;
      },
      1_700_000_100,
    )
    ∷ []

merged : or_default (get (replay [] history) peer) ≡ record {
  threshold_last = 9_450_000;
  lambda_ms = some 1210;
  settled_units = 1500;
  service_cps_x10 = 200;
  surplus_units = 42;
  last_ok_unix = 1_700_000_000;
}
unfolding replay observe merge get lookup insert
merged = refl

replay-Summary_example :
    Summary unknown (own peer history) (or_default (get (replay [] history) peer))
replay-Summary_example = replay-Summary peer history

-- A store of one peer whose latency was never measured.
abbrev one_peer : Store
one_peer = (replicate 32 7, record unknown { threshold_last = 13_500_000; surplus_units = 42 }) ∷ []

sevens_small : (n : ℕ) → All (λ b. b < 256) (replicate n 7)
sevens_small zero = tt
sevens_small (suc n) = (omega arith, sevens_small n)

open_file-save_example :
    lookup (replicate 32 7) (open_file plain_hex (some (save plain_hex one_peer)))
    ≡ lookup (replicate 32 7) one_peer
unfolding lookup
open_file-save_example =
    open_file-save plain_hex one_peer (replicate 32 7)
      (
        (
          record { size = refl; bytes = sevens_small 32 },
          record {
            threshold = omega arith;
            latency_fits = omega arith;
            settled = omega arith;
            last_ok = omega arith;
            service = omega arith;
            surplus = omega arith;
          },
        ),
        tt,
      )
      (refl, tt)
