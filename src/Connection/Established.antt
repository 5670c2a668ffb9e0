-- ===== src/Connection/Established.antt =====
-- `run_established` of rust/ds-net/src/schedule.rs around the loop: what is known of the peer
-- before
-- it, and what is remembered after it.
use directswarm.Base.{
  ℕ, ◌+◌, ◌-◌, ◌*◌, ◌≡◌, ◌≢◌, ap, ◌∙◌, max, min, Bool, true, false, not, ◌&&◌, Option, none, some,
  ltb, ◌==◌, if◌then◌else◌, ◌>>=◌, unwrap_or, arith, wrap_add, lookup, lookup-insert, bytes_eq,
  bytes_beq, bytes_beq_iff,
}
use directswarm.Base.Results.{Result, ok, err}
use directswarm.Swarm.{SwarmAddress}
use directswarm.PeerState.{PeerState, PeerObservation, Store, merge, get, or_default, observe}
use directswarm.Pacer.{Pacer, start, threshold, prepaid_emitted, lambda_max_ms, default_lambda_ms}
use directswarm.Cheque.{Error, Books, Outcome, emit_settlement_cheque}
use directswarm.Connection.{Shared, Conn, Turn, unpaid, is_none}
use directswarm.Connection.Loop.{order, paid}

-- First contact: no latency is known, measuring is asked for, and nothing is prepaid.
abbrev pub measures : Option PeerState → Bool → Bool → Bool
measures known measure_lambda prepay =
    is_none (known >>= λ k. k.lambda_ms) && measure_lambda && not prepay

-- A measured latency is used at once.
abbrev pub with_lambda : Option ℕ → Pacer → Pacer
with_lambda none p = p
with_lambda (some l) p = record p { lambda_ms = l }

abbrev initial_result : Turn → Shared × Pacer → Books × Result Error Outcome → Shared × Pacer
initial_result t (g, p) (b, err e) = (record g { books = b }, p)
initial_result t (g, p) (b, ok o) = (paid b o g, prepaid_emitted p (250 * 230_000) o.rate t.now)

-- The first slice, unless the surplus at the peer covers a useful part of it; a failure is left to
-- the
-- loop.
unfoldable pub initial_prepay : Conn → Turn → Shared × Pacer → Shared × Pacer
initial_prepay c t (g, p) =
    if c.prepay && ltb p.prepaid (25 * 230_000)
    then initial_result t (g, p) (emit_settlement_cheque (order c (250 * 230_000)) t.peer g.books)
    else (g, p)

-- How long to wait before the peer is asked to confirm that nothing is owed.
abbrev pub confirm_wait : Pacer → ℕ
confirm_wait p = max 2_500 (min lambda_max_ms p.lambda_ms) + 1_500

-- Asked only on a live connection that ended with nothing unpaid; `answer` is the amount accepted.
abbrev pub confirmed : ℕ → Bool → Option ℕ → Bool
confirmed residual alive none = false
confirmed residual alive (some n) = (residual == 0) && alive && (n == 0)

-- What the peer still holds for us.
abbrev pub parked : Pacer → ℕ
parked p = p.prepaid - p.mirror.balance

-- The service rate is a parameter: it is computed in floating point.
unfoldable pub observation : Conn → Pacer → Option ℕ → Option ℕ → ℕ → Bool → PeerObservation
observation c p measured rate_cps residual zero = record {
  threshold = threshold p;
  lambda_ms = measured;
  settled_units_delta = p.settled_units;
  service_cps_x10 = rate_cps;
  surplus_units_abs = if c.prepay then some (parked p) else none;
  clean_close = (residual == 0) && zero;
}

unfoldable pub surplus_after : Conn → Pacer → ℕ → ℕ
surplus_after c p surplus_parked =
    if c.prepay then wrap_add surplus_parked (parked p) else surplus_parked

-- A settled and healthy connection is kept for the next fetch if there is a pool for it.
abbrev pub parks : Bool → ℕ → Bool → Bool
parks has_pool residual alive = has_pool && (residual == 0) && alive

-- The peers' store after the connection.
unfoldable pub remember :
    Store → SwarmAddress → Conn → Pacer → Option ℕ → Option ℕ → ℕ → Bool → ℕ → Store
remember m overlay c p measured rate_cps residual zero unix =
    observe m overlay (observation c p measured rate_cps residual zero) unix

get-remember :
    (m : Store) (overlay other : SwarmAddress) (c : Conn) (p : Pacer) (measured rate_cps : Option ℕ)
    (residual : ℕ) (zero : Bool) (unix : ℕ)
    → get (remember m overlay c p measured rate_cps residual zero unix) other ≡ (
        if bytes_beq overlay other
        then some (
            merge
              (or_default (get m overlay))
              (observation c p measured rate_cps residual zero)
              unix)
        else get m other)
unfolding remember observe get
get-remember m overlay other c p measured rate_cps residual zero unix =
    lookup-insert overlay other
      (merge (or_default (lookup overlay m)) (observation c p measured rate_cps residual zero) unix)
      m

-- The latency after the merge.
latency-merge :
    (known : Option PeerState) (obs : PeerObservation) (unix : ℕ)
    → unwrap_or (merge (or_default known) obs unix).lambda_ms default_lambda_ms
      ≡ unwrap_or obs.lambda_ms (unwrap_or (known >>= λ k. k.lambda_ms) default_lambda_ms)
unfolding merge
latency-merge none obs unix = ground arith
latency-merge (some k) obs unix = ground arith

-- A prepaying connection leaves in the store what it has prepaid and not used; the next connection
-- to that peer begins with exactly that prepaid, owes nothing, and uses the latency that this one
-- measured, or else the one known before; what is remembered of every other peer is as it was.
pub start-remember :
    (m : Store) (overlay other : SwarmAddress) (c : Conn) (p : Pacer) (measured rate_cps : Option ℕ)
    (residual : ℕ) (zero : Bool) (unix : ℕ) (announced : Option ℕ)
    → c.prepay ≡ true
    → overlay ≢ other
    → (let m' = remember m overlay c p measured rate_cps residual zero unix in
        let next = start true (get m' overlay) none announced in
        (next.prepaid ≡ p.prepaid - p.mirror.balance)
        × (unpaid next ≡ 0)
        × (next.lambda_ms ≡ (start true (get m overlay) measured announced).lambda_ms)
        × (get m' other ≡ get m other))
unfolding remember observe get start observation merge
start-remember m overlay other c p measured rate_cps residual zero unix announced h ne =
    let obs = observation c p measured rate_cps residual zero in
    let at_peer : get (remember m overlay c p measured rate_cps residual zero unix) overlay
        ≡ some (merge (or_default (get m overlay)) obs unix) =
      get-remember m overlay overlay c p measured rate_cps residual zero unix
      ∙ ground (arith, bytes_beq_iff overlay overlay) in
    (
      ap (λ k. unwrap_or (k >>= λ s. some s.surplus_units) 0) at_peer ∙ ground (arith, h),
      omega arith,
      ap (λ k. unwrap_or (k >>= λ s. s.lambda_ms) default_lambda_ms) at_peer
          ∙ latency-merge (get m overlay) (observation c p measured rate_cps residual zero) unix,
      get-remember m overlay other c p measured rate_cps residual zero unix
          ∙ ground (arith, bytes_beq_iff overlay other),
    )
