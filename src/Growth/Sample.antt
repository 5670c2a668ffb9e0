-- ===== src/Growth/Sample.antt =====
-- `lambda_sample` of rust/ds-net/src/growth.rs: debt is built up chunk by chunk, swept with one cheque,
-- and small refreshes are sent until two in a row are accepted with zero.
use directswarm.Base.{
  ℕ, zero, suc, ◌+◌, ◌*◌, ◌/◌, ◌%◌, ◌^◌, Bool, true, false, not, List, [], ◌∷◌, Option, none, some,
  ltb, if◌then◌else◌, wrap_add,
}
use directswarm.Mirror.{try_reserve, apply, release}
use directswarm.Cheque.{Peer}
use directswarm.Connection.Lambda.{Probe, lambda_probe_units, lambda_probe_timeout_ms}
use directswarm.Growth.{Terms, Conn, threshold, spend_would_exceed, emit, chunk_at}

-- A round of the building that begins before the deadline: whether the peer is there, and whether it
-- serves the chunk.
pub record Round : Type 0 where
  pub alive : Bool
  pub serves : Bool

-- What a round decides.
pub data Verdict : Type 0 where
  again enough peer_gone : Verdict

abbrev pub served : Bool → ℕ → Conn → Conn
served true price c = record c { acct = apply c.acct price }
served false price c = record c { acct = release c.acct price }

unfoldable pub build_round : Terms → ℕ → Round → Conn → ℕ → (Conn × ℕ) × Verdict
build_round t limit r c cycle_idx =
    let price = t.price (chunk_at t cycle_idx) in
    let (m, granted) = try_reserve c.acct price (limit / 2) in
    if not (ltb c.acct.balance (limit * 4 % 2 ^ 64 / 10))
    then ((c, cycle_idx), enough)
    else if not r.alive
    then ((record c { alive = false }, cycle_idx), peer_gone)
    else if spend_would_exceed t c price
    then ((c, cycle_idx), enough)
    else if granted
    then ((served r.serves price (record c { acct = m }), cycle_idx + 1), again)
    else ((c, cycle_idx), enough)

-- The rest of the building, or its end; the flag says whether the peer is still there.
abbrev pub go_on : (Conn → ℕ → (Conn × ℕ) × Bool) → (Conn × ℕ) × Verdict → (Conn × ℕ) × Bool
go_on next ((c, cycle_idx), again) = next c cycle_idx
go_on next ((c, cycle_idx), enough) = ((c, cycle_idx), true)
go_on next ((c, cycle_idx), peer_gone) = ((c, cycle_idx), false)

-- When the rounds end the deadline has passed.
unfoldable pub build_debt : Terms → ℕ → List Round → Conn → ℕ → (Conn × ℕ) × Bool
build_debt t limit [] c cycle_idx = ((c, cycle_idx), true)
build_debt t limit (r ∷ rest) c cycle_idx =
    go_on (build_debt t limit rest) (build_round t limit r c cycle_idx)

-- What is accepted was settled by the free tier.
abbrev pub probed : ℕ → Conn → Conn
probed accepted c = record c {
  refreshes = wrap_add c.refreshes 1;
  refresh_units = wrap_add c.refresh_units accepted;
}

-- A probe's answer, or its failure; `next` is the rest of the loop.
unfoldable pub answered :
    (Option ℕ → Conn → Conn × Option ℕ) → ℕ → ℕ → Option ℕ → Option ℕ → Conn → Conn × Option ℕ
answered next now ends none zero_at c = next zero_at c
answered next now ends (some zero) none c = next (some ends) c
answered next now ends (some zero) (some first) c =
    (record c { last_refresh = some now }, some first)
answered next now ends (some (suc n)) zero_at c = next none (probed (suc n) c)

unfoldable pub sampling : ℕ → List Probe → Option ℕ → Conn → Conn × Option ℕ
sampling now [] zero_at c = (record c { last_refresh = some now }, none)
sampling now (p ∷ rest) zero_at c =
    if ltb p.begins lambda_probe_timeout_ms
    then answered (sampling now rest) now p.ends p.accepted zero_at c
    else (record c { last_refresh = some now }, none)

-- What one sample meets.
pub record Sample : Type 0 where
  pub rounds : List Round
  pub peer : Peer
  pub now : ℕ
  pub probes : List Probe
  pub later : ℕ

unfoldable pub swept : ℕ → List Probe → Conn × Bool → Conn × Option ℕ
swept later probes (c, true) = sampling later probes none c
swept later probes (c, false) = (c, none)

-- Behind the building: too little debt measures nothing.
unfoldable pub sample_built : Terms → Sample → (Conn × ℕ) × Bool → (Conn × ℕ) × Option ℕ
unfolding swept
sample_built t s ((c, cycle_idx), false) = ((c, cycle_idx), none)
sample_built t s ((c, cycle_idx), true) =
    if ltb c.acct.balance (lambda_probe_units * 4)
    then ((c, cycle_idx), none)
    else (let (c', latency) = swept s.later s.probes (emit t s.peer c.acct.balance s.now c) in
        ((c', cycle_idx), latency))

unfoldable pub lambda_sample : Terms → Sample → Conn → ℕ → (Conn × ℕ) × Option ℕ
unfolding sample_built
lambda_sample t s c cycle_idx = sample_built t s (build_debt t (threshold c) s.rounds c cycle_idx)
