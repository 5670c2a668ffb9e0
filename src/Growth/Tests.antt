-- ===== src/Growth/Tests.antt =====
-- A growth phase of a second with one chunk, and the cheque that sweeps its debt.
use directswarm.Base.{
  ℕ, ◌^◌, ◌≡◌, ◌≢◌, refl, Bool, true, false, List, [], ◌∷◌, Option, none, some, arith, codes,
  replicate, unwrap_or,
}
use directswarm.Base.Results.{ok, err}
use directswarm.Wire.{
  parse_settlement_headers, decode_varint, delimited, headers_field, header_from, header_field,
  take_header, split_at, big_endian,
}
use directswarm.Wire.Varint.{varint_from}
use directswarm.Wire.Fields.{encode}
use directswarm.Wire.Headers.{message}
use directswarm.Cheque.{Peer, Books, announced, open_failed, spend_guard, emit_settlement_cheque}
use directswarm.Connection.Samples.{silent, address}
use directswarm.Mirror.{try_reserve, apply}
use directswarm.Growth.{Terms, connected, order, spend_would_exceed, refreshed}
use directswarm.Growth.Phase.{
  Event, own, task, served, no_stats, begin_phase, run, step, advance, begin, track, stop_when,
  spawn_next, limit_of, reserve_with, tally, tally_all, drain, wanted, settle, close, finish_task,
}
use directswarm.Growth.Run.{
  GrowthOptions, World, Script, Progress, whole_phase, grow, sample_all, prepay_once, at_ceiling,
  phases, residual,
}
use directswarm.Growth.Room.{HasRate}
use directswarm.Growth.Covered.{sweep_is_covered}

abbrev terms : Terms
terms = record {
  price = λ a. 230_000;
  chunks = address 1 ∷ address 2 ∷ [];
  pipeline_depth = 1;
  beneficiary = replicate 20 1;
  issuable = 10 ^ 20;
  max_issue_plur = 10 ^ 12;
}

abbrev options : GrowthOptions
options = record { growth_secs = 1; ceiling_secs = 0; lambda_samples = 0; prepay_units = 0 }

abbrev tick : ℕ → Event
tick now = own (record { now = now; reply = none; peer = silent })

-- A chunk is asked for and served; then the second is over.
abbrev second : List Event
second =
    tick 0
    ∷ tick 0
    ∷ tick 0
    ∷ tick 0
    ∷ task 0 (served 80 4_096)
    ∷ tick 0
    ∷ tick 0
    ∷ tick 0
    ∷ tick 0
    ∷ tick (10 ^ 9)
    ∷ tick (10 ^ 9)
    ∷ tick (10 ^ 9)
    ∷ tick (10 ^ 9)
    ∷ tick (10 ^ 9)
    ∷ []

abbrev there : World
there = record { alive = true; announced = none }

abbrev script : Script
script = record {
  growth_at = 0;
  growth_events = second;
  samples = [];
  prepayment = record { world = there; peer = silent; now = 10 ^ 9 };
  ceiling_at = 10 ^ 9;
  ceiling_events = [];
  sweeps = [];
  still_alive = true;
  confirmation = none;
}

abbrev no_books : Books
no_books = record { issued_plur = 0; ledger = record { map = []; dirty = false } }

abbrev start : Progress
start = record {
  conn = connected no_books none;
  cycle_idx = 0;
  spend_capped = false;
  lambda_ms = [];
  growth_stats = no_stats;
  ceiling_stats = none;
}

abbrev swept : Progress
swept = unwrap_or (phases terms options script (connected no_books none)) start

-- 512 for a unit and a deduction of 9.
abbrev answering : Peer
answering = record {
  opens = true;
  greets = true;
  response = some (
      encode (
        message (
          ((1, codes "exchange") ∷ (2, 2 ∷ 0 ∷ []) ∷ [])
          ∷ ((1, codes "deduction") ∷ (2, 9 ∷ []) ∷ [])
          ∷ [])));
  signs = λ n. some (n ∷ []);
  writes = λ sent. true;
}

quoted : announced answering ≡ ok (512, 9)
unfolding announced parse_settlement_headers encode varint_from decode_varint headers_field
    delimited split_at header_from header_field take_header big_endian
quoted = refl

abbrev is_some {ℓ} : {A : Type ℓ} → Option A → Bool
is_some none = false
is_some (some a) = true

some-unwrap_or {ℓ} :
    {A : Type ℓ} (o : Option A) (default : A) → is_some o ≡ true → o ≡ some (unwrap_or o default)
some-unwrap_or none default e = cc
some-unwrap_or (some a) default e = refl

ends : is_some (phases terms options script (connected no_books none)) ≡ true
unfolding phases grow whole_phase run step advance begin track stop_when spawn_next limit_of
    reserve_with tally tally_all drain wanted settle close finish_task begin_phase connected
    spend_would_exceed refreshed try_reserve apply sample_all prepay_once at_ceiling
ends = refl

completed : phases terms options script (connected no_books none) ≡ some swept
completed = some-unwrap_or (phases terms options script (connected no_books none)) start ends

served_debt : residual swept.conn ≡ 230_000
unfolding phases grow whole_phase run step advance begin track stop_when spawn_next limit_of
    reserve_with tally tally_all drain wanted settle close finish_task begin_phase connected
    spend_would_exceed refreshed try_reserve apply sample_all prepay_once at_ceiling
served_debt = refl

quiet : announced silent ≡ err open_failed
unfolding announced
quiet = refl

unquoted : HasRate 512 silent
unquoted = rw quiet tt

sweep_is_covered_example :
    (emit_settlement_cheque (order terms (residual swept.conn)) answering swept.conn.books).1
    ≢ err spend_guard
sweep_is_covered_example =
    sweep_is_covered terms 512 (omega arith) (omega arith) (λ a. omega arith) options script
      no_books none swept answering
      (
        (
          unquoted,
          (
            unquoted,
            (
              unquoted,
              (
                unquoted,
                (
                  tt,
                  (
                    unquoted,
                    (
                      unquoted,
                      (
                        unquoted,
                        (unquoted, (unquoted, (unquoted, (unquoted, (unquoted, (unquoted, tt)))))),
                      ),
                    ),
                  ),
                ),
              ),
            ),
          ),
        ),
        tt,
        unquoted,
        tt,
      )
      (rw quoted refl) (omega arith) refl (rw (quiet, quoted) (omega arith)) completed
      (rw served_debt (omega arith))
