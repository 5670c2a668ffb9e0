-- ===== src/Connection/Loop.antt =====
-- The loop of `drive`, one function for what runs between two places where it can be interrupted.
use directswarm.Base.{
  ℕ, ◌+◌, ◌-◌, ◌*◌, ◌/◌, ◌%◌, ◌^◌, min, max, Bool, true, false, not, ◌&&◌, ◌||◌, [], ◌∷◌, ◌++◌,
  Option, none, some, ltb, ◌==◌, if◌then◌else◌, is_empty, sat_mul, wrap_add, u64_max,
}
use directswarm.Base.Results.{Result, ok, err}
use directswarm.Swarm.{SwarmAddress}
use directswarm.Pacer.{threshold, admit, emitted, prepaid_emitted, settle_reply}
use directswarm.Cheque.{Error, Order, Books, Outcome, emit_settlement_cheque}
use directswarm.ChunkStore.{contains}
use directswarm.Dispatch.{pop, remaining}
use directswarm.Connection.{
  refresh_min_interval, cheque_min_interval, Shared, Conn, head, hung_up, admitting, reaping,
  refreshing, settling, prepaying, emitting, closing, returned, Drive, Turn, State, goto, tasks_len,
  tasks_empty, is_none, unpaid, due, shed,
}

-- The projection of the spend: more than 92 % of the cap stops the fetching.
unfoldable pub near_cap : Conn → Shared → Drive → Bool
near_cap c g d = ltb (c.max_issue_plur * 92 / 100) (
    g.books.issued_plur
    + (wrap_add d.pacer.mirror.balance d.pacer.mirror.reserved - d.pacer.prepaid) * d.pacer.rate)

abbrev stop : Conn → State → State
stop c (g, d) = (g, record d { spend_stop = d.spend_stop || near_cap c g d })

abbrev halt : State → State
halt (g, d) =
    let halted = d.spend_stop || g.wind_down in
    goto (admitting halted) (if halted then shed (g, d) else (g, d))

unfoldable pub begin : Conn → State → State
begin c (g, d) = if d.alive then halt (stop c (g, d)) else goto hung_up (g, d)

-- In-flight tasks fail over on their own; what debt remains is unpayable now.
unfoldable pub give_up : State → State
give_up (g, d) =
    if is_empty d.running
    then goto (returned (unpaid d.pacer)) (shed (g, record d { unjoined = 0 }))
    else (g, d)

-- One round of the admission loop with the chunk that it took.
unfoldable pub consider : Conn → ℕ → SwarmAddress → State → State
consider c now addr (g, d) =
    let price = c.price addr in
    let (p, admitted) = admit (record d.pacer { avg_price = max price 1 }) price now in
    if contains g.store addr
    then (g, d)
    else if admitted
    then (g, record d { pacer = p; running = d.running ++ (addr, price) ∷ [] })
    else goto (reaping false) (g, record d { pacer = p; pending = some addr })

-- `pending.take().or_else(|| pool.pop(prefix))`.
abbrev pub take_work : Conn → State → State × Option SwarmAddress
take_work c (g, d) = elim d.pending [
  | some addr ↦ ((g, record d { pending = none }), some addr)
  | none ↦ ((record g { pool = (pop g.pool c.prefix).0 }, d), (pop g.pool c.prefix).1)
]

abbrev pub try_work : Conn → ℕ → State × Option SwarmAddress → State
try_work c now (s, some addr) = consider c now addr s
try_work c now ((g, d), none) = goto (reaping false) (g, record d { bucket_drained = true })

unfoldable pub admit_next : Conn → ℕ → Bool → State → State
admit_next c now halted (g, d) =
    if not d.finishing && not halted && ltb (tasks_len d) c.pipeline
    then try_work c now (take_work c (g, d))
    else goto (reaping halted) (g, d)

-- The finished tasks are joined; then the refresh cadence, asked only with unpaid debt.
unfoldable pub reap : ℕ → Bool → State → State
reap now halted (g, d) =
    let d' = record d { unjoined = 0 } in
    if not (due d.pacer.last_refresh refresh_min_interval now)
    then goto (settling halted) (g, d')
    else if ltb 0 (unpaid d.pacer)
    then goto (refreshing halted) (g, d')
    else goto (settling halted)
        (g, record d' { pacer = record d.pacer { last_refresh = some now } })

unfoldable pub finish_refresh : ℕ → Option ℕ → Bool → State → State
finish_refresh now reply halted (g, d) = goto (settling halted) (
  record g {
    refresh_units = elim reply [ none ↦ g.refresh_units | some n ↦ wrap_add g.refresh_units n ];
  },
  record d { pacer = record (settle_reply d.pacer reply) { last_refresh = some now } },
)

-- What a prepaying connection wants to have paid: what is used, and one slice of what remains.
unfoldable pub desired : Conn → Shared → Drive → ℕ
desired c g d =
    let work = remaining g.pool c.prefix + tasks_len d + (if is_none d.pending then 0 else 1) in
    wrap_add d.pacer.mirror.balance
      (min (work * d.pacer.avg_price % 2 ^ 64) (sat_mul d.pacer.avg_price 250))

-- The cheque policy: a fifth of the threshold while fetching, anything unpaid afterwards.
unfoldable pub settle : Conn → ℕ → Bool → State → State
settle c now halted (g, d) =
    let p = d.pacer in
    let cheque_due = due p.last_cheque cheque_min_interval now in
    let want =
      if d.finishing || halted then ltb 0 (unpaid p) else not (ltb (unpaid p) (threshold p / 5)) in
    if c.prepay && not d.finishing && not halted
    then (if cheque_due && ltb (wrap_add p.prepaid (sat_mul p.avg_price 10)) (desired c g d)
        then goto (prepaying halted (desired c g d - p.prepaid)) (g, d)
        else goto (closing halted) (g, d))
    else if want && cheque_due
    then goto (emitting halted (unpaid p)) (g, d)
    else goto (closing halted) (g, d)

abbrev pub order : Conn → ℕ → Order
order c units = record {
  beneficiary = c.beneficiary;
  debt_units = units;
  issuable = c.issuable;
  max_issue_plur = c.max_issue_plur;
}

-- The books after a cheque, and its counters.
abbrev pub paid : Books → Outcome → Shared → Shared
paid b o g = record g {
  books = b;
  cheques = wrap_add g.cheques 1;
  cheque_plur = wrap_add g.cheque_plur (min o.plur u64_max);
}

-- `emit_prepay`.
unfoldable pub prepaid_result : Turn → Bool → ℕ → State → Books × Result Error Outcome → State
prepaid_result t halted units (g, d) (b, err e) = goto (closing halted) (record g { books = b }, d)
prepaid_result t halted units (g, d) (b, ok o) =
    goto (closing halted)
      (paid b o g, record d { pacer = prepaid_emitted d.pacer units o.rate t.now })

abbrev prepay_cheque : Conn → Turn → Bool → ℕ → State → State
prepay_cheque c t halted units (g, d) =
    prepaid_result t halted units (g, d) (emit_settlement_cheque (order c units) t.peer g.books)

-- A failed cheque counts only once the connection is finishing; the third ends it.
unfoldable pub sweep_failed : Bool → State → State
sweep_failed halted (g, d) =
    let d' = record d { sweep_attempts = d.sweep_attempts + 1 } in
    if not d.finishing
    then goto (closing halted) (g, d)
    else if ltb d'.sweep_attempts 3
    then goto (closing halted) (g, d')
    else goto (returned (unpaid d.pacer)) (g, d')

-- `emit`.
unfoldable pub debt_result : Turn → Bool → ℕ → State → Books × Result Error Outcome → State
debt_result t halted units (g, d) (b, err e) = sweep_failed halted (record g { books = b }, d)
debt_result t halted units (g, d) (b, ok o) =
    goto (closing halted) (paid b o g, record d { pacer = emitted d.pacer units o.rate t.now })

abbrev debt_cheque : Conn → Turn → Bool → ℕ → State → State
debt_cheque c t halted units (g, d) =
    debt_result t halted units (g, d) (emit_settlement_cheque (order c units) t.peer g.books)

-- The phase transitions, and the sleep before the next round.
unfoldable pub close : Bool → State → State
close halted (g, d) =
    let finishing =
      d.finishing || (is_none d.pending && tasks_empty d && (d.bucket_drained || halted)) in
    let d' = record d { finishing = finishing } in
    if finishing && tasks_empty d && (unpaid d.pacer == 0)
    then goto (returned 0) (g, d')
    else goto head (g, d')

-- The connection's own next step.
unfoldable pub advance : Conn → Turn → State → State
advance c t (g, d) = elim d.at [
  | head ↦ begin c (g, d)
  | hung_up ↦ give_up (g, d)
  | admitting halted ↦ admit_next c t.now halted (g, d)
  | reaping halted ↦ reap t.now halted (g, d)
  | refreshing halted ↦ finish_refresh t.now t.reply halted (g, d)
  | settling halted ↦ settle c t.now halted (g, d)
  | prepaying halted units ↦ prepay_cheque c t halted units (g, d)
  | emitting halted units ↦ debt_cheque c t halted units (g, d)
  | closing halted ↦ close halted (g, d)
  | returned residual ↦ (g, d)
]
