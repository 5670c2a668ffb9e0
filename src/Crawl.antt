-- ===== src/Crawl.antt =====
-- The topology crawler of rust/ds-net/src/crawl.rs: the frontier of candidates, the dial with its
-- handshake, and the harvest of gossip. Times are nanoseconds since the start.
pub mod Distinct
pub mod Polite
mod Tests
use directswarm.Base.{
  ℕ, zero, suc, ◌+◌, ◌-◌, ◌≤◌, Bool, true, false, not, ◌&&◌, List, [], ◌∷◌, ◌++◌, map, Option, none,
  some, ltb, if◌then◌else◌, any, wrap_add, Eq, replicate,
}
use directswarm.Base.Results.{Result, err, ok, ◌>>=◌}
use directswarm.Swarm.{SwarmAddress}
use directswarm.Topology.{NodeRecord, TopologyCache, upsert}
use directswarm.Hive.{Multiaddr, PeerHint, Protocol, p2p, other, find_map}

pub record CrawlOptions : Type 0 where
  pub max_dials : ℕ
  pub dial_interval : ℕ
  pub wall_cap : ℕ

pub data StopReason : Type 0 where
  wall_cap max_dials frontier_drained : StopReason

pub record CrawlStats : Type 0 where
  pub dials_attempted : ℕ
  pub dials_ok : ℕ
  pub hints_seen : ℕ
  pub stop_reason : Option StopReason

pub data DialError : Type 0 where
  task_gone dial_timeout dial_failed both_versions_failed : DialError

-- What the swarm's task reports of a peer.
pub data Evt (Peer : Type 0) : Type 0 where
  connected : Peer → Evt Peer
  failed : Peer → Evt Peer
  identified : Peer → Evt Peer

-- How the waiting ends if no report ends it: the channel closes, `recv` times out, or the deadline
-- is past when the loop looks at it.
pub data Ending : Type 0 where
  closed timed_out expired : Ending

-- The handshake on one wire version: no stream, no agreement, or the peer's overlay.
pub data Shake : Type 0 where
  not_opened refused : Shake
  shaken : SwarmAddress → Shake

-- A gossiped peer, and the tick at which it is recorded.
abbrev pub Heard : Type 0 → Type 0 → Type 0
Heard Addr Peer = PeerHint Addr Peer × ℕ

-- What a round of the crawl meets: the time since the last dial, and what the sleep takes too long;
-- the reports; the two handshakes, the round trip and its tick; the gossip.
pub record Visit (Addr Peer : Type 0) : Type 0 where
  pub passed : ℕ
  pub late : ℕ
  pub events : List (Evt Peer)
  pub ending : Ending
  pub v15 : Shake
  pub v14 : Shake
  pub rtt_ms : ℕ
  pub tick : ℕ
  pub heard : List (Heard Addr Peer)

-- The frontier, the peers that were ever queued, the cache, and the commands to the swarm: each dial
-- with its time, each polite disconnect.
pub record Crawl (Addr Peer : Type 0) : Type 0 where
  pub frontier : List (PeerHint Addr Peer)
  pub queued : List Peer
  pub cache : TopologyCache
  pub stats : CrawlStats
  pub clock : ℕ
  pub last_dial : Option ℕ
  pub dialed : List (ℕ × Addr)
  pub disconnected : List Peer

-- V15, then V14.
abbrev pub first_shaken : Shake → Shake → Result DialError SwarmAddress
first_shaken (shaken overlay) v14 = ok overlay
first_shaken not_opened (shaken overlay) = ok overlay
first_shaken refused (shaken overlay) = ok overlay
first_shaken _ _ = err both_versions_failed

-- A connected peer may be slow to identify itself.
abbrev pub ended_waiting : Bool → Ending → Result DialError (Unit {0})
ended_waiting is_connected closed = err task_gone
ended_waiting true timed_out = ok tt
ended_waiting false timed_out = err dial_timeout
ended_waiting is_connected expired = err dial_timeout

abbrev pub wait_before : ℕ → Option ℕ → ℕ → ℕ
wait_before interval none now = 0
wait_before interval (some at) now = interval - (now - at)

module _ {Addr Peer : Type 0} ⦃e : Eq Peer⦄ (net : Multiaddr Addr Peer)
    (to_string : Addr → List ℕ) where
  abbrev pub contains : Peer → List Peer → Bool
  contains p = any (e.beq p)

  abbrev pub peer_of : Protocol Peer → Option Peer
  peer_of (p2p peer) = some peer
  peer_of other = none

  abbrev pub extract_peer_id : Addr → Option Peer
  extract_peer_id addr = find_map peer_of (net.iter addr)

  -- `queued.insert`.
  abbrev pub enqueue : Peer → List Peer → List Peer
  enqueue p queued = if contains p queued then queued else queued ++ p ∷ []

  abbrev pub add_seed : Addr → Option Peer → Crawl Addr Peer → Crawl Addr Peer
  add_seed seed none s = s
  add_seed seed (some peer) s = record s {
    frontier =
        s.frontier
        ++ record { peer_id = peer; overlay = replicate 32 0; underlays = seed ∷ [] } ∷ [];
    queued = enqueue peer s.queued;
  }

  unfoldable pub add_seeds : List Addr → Crawl Addr Peer → Crawl Addr Peer
  add_seeds [] s = s
  add_seeds (seed ∷ rest) s = add_seeds rest (add_seed seed (extract_peer_id seed) s)

  -- A gossiped node is recorded, and queued if its peer is new.
  unfoldable pub hear : Heard Addr Peer → Crawl Addr Peer → Crawl Addr Peer
  hear (hint, tick) s = record s {
    stats = record s.stats { hints_seen = wrap_add s.stats.hints_seen 1 };
    cache = upsert s.cache (record {
      overlay = hint.overlay;
      underlays = map to_string hint.underlays;
      rtt_ms = none;
      last_seen_tick = tick;
      dialed_ok = false;
    });
    queued = enqueue hint.peer_id s.queued;
    frontier = if contains hint.peer_id s.queued then s.frontier else s.frontier ++ hint ∷ [];
  }

  unfoldable pub harvest : List (Heard Addr Peer) → Crawl Addr Peer → Crawl Addr Peer
  harvest [] s = s
  harvest (h ∷ rest) s = harvest rest (hear h s)

  -- The reports about the dialed peer.
  unfoldable pub await_identify :
      Peer → Bool → List (Evt Peer) → Ending → Result DialError (Unit {0})
  await_identify peer is_connected [] ending = ended_waiting is_connected ending
  await_identify peer is_connected (connected p ∷ rest) ending =
      await_identify peer (if e.beq p peer then true else is_connected) rest ending
  await_identify peer is_connected (identified p ∷ rest) ending =
      let later = await_identify peer is_connected rest ending in
      if e.beq p peer then ok tt else later
  await_identify peer is_connected (failed p ∷ rest) ending =
      let later = await_identify peer is_connected rest ending in
      if e.beq p peer then err dial_failed else later

  unfoldable pub dial_and_handshake : Peer → Visit Addr Peer → Result DialError (SwarmAddress × ℕ)
  dial_and_handshake peer v = do
    done ← await_identify peer false v.events v.ending
    overlay ← first_shaken v.v15 v.v14
    ok (overlay, v.rtt_ms)

  -- What follows a handshake, or its failure: both hang up.
  unfoldable pub greeted :
      PeerHint Addr Peer
      → Visit Addr Peer
      → Result DialError (SwarmAddress × ℕ)
      → Crawl Addr Peer
      → Crawl Addr Peer
  greeted hint v (err reason) s = record s { disconnected = s.disconnected ++ hint.peer_id ∷ [] }
  greeted hint v (ok (overlay, rtt_ms)) s =
      let s' = harvest v.heard (record s {
        stats = record s.stats { dials_ok = wrap_add s.stats.dials_ok 1 };
        cache = upsert s.cache (record {
          overlay = overlay;
          underlays = map to_string hint.underlays;
          rtt_ms = some rtt_ms;
          last_seen_tick = v.tick;
          dialed_ok = true;
        });
      }) in
      record s' { disconnected = s'.disconnected ++ hint.peer_id ∷ [] }

  -- A candidate without an address is passed over.
  unfoldable pub dial_first :
      PeerHint Addr Peer → Visit Addr Peer → List Addr → ℕ → Crawl Addr Peer → Crawl Addr Peer
  dial_first hint v [] now s = s
  dial_first hint v (addr ∷ others) now s =
      greeted hint v (dial_and_handshake hint.peer_id v)
        (record s { dialed = s.dialed ++ (now, addr) ∷ [] })

  -- Behind the two caps: the wait for the dial interval, then the dial.
  unfoldable pub visit :
      CrawlOptions → PeerHint Addr Peer → Visit Addr Peer → Crawl Addr Peer → Crawl Addr Peer
  visit o hint v s =
      let now = s.clock + wait_before o.dial_interval s.last_dial s.clock + v.late in
      dial_first hint v hint.underlays now (record s {
        clock = now;
        last_dial = some now;
        stats = record s.stats { dials_attempted = wrap_add s.stats.dials_attempted 1 };
      })

  abbrev pub stopped : StopReason → Crawl Addr Peer → Crawl Addr Peer
  stopped reason s = record s { stats = record s.stats { stop_reason = some reason } }

  -- One round with a candidate; `next` is the rest of the crawl.
  unfoldable pub round :
      CrawlOptions
      → PeerHint Addr Peer
      → Visit Addr Peer
      → (Crawl Addr Peer → Option (Crawl Addr Peer))
      → Crawl Addr Peer
      → Option (Crawl Addr Peer)
  round o hint v next s =
      if not (ltb s.clock o.wall_cap)
      then some (stopped wall_cap s)
      else if not (ltb s.stats.dials_attempted o.max_dials)
      then some (stopped max_dials s)
      else next (visit o hint v s)

  -- The loop: the k-th round meets the k-th visit. None is for want of fuel.
  unfoldable pub crawl_from :
      CrawlOptions → (ℕ → Visit Addr Peer) → ℕ → ℕ → Crawl Addr Peer → Option (Crawl Addr Peer)
  crawl_from o visits zero k s = none
  crawl_from o visits (suc fuel) k s = elim s.frontier [
    | [] ↦ some (stopped frontier_drained s)
    | hint ∷ rest ↦
        round o hint (visits k) (crawl_from o visits fuel (k + 1))
          (record s { frontier = rest; clock = s.clock + (visits k).passed })
  ]

  abbrev pub new : SwarmAddress → Crawl Addr Peer
  new reference = record {
    frontier = [];
    queued = [];
    cache = record { reference = reference; nodes = [] };
    stats = record { dials_attempted = 0; dials_ok = 0; hints_seen = 0; stop_reason = none };
    clock = 0;
    last_dial = none;
    dialed = [];
    disconnected = [];
  }

  -- Every round but the last dials, so one more round than dials is enough.
  unfoldable pub crawl :
      CrawlOptions → SwarmAddress → List Addr → (ℕ → Visit Addr Peer) → Option (Crawl Addr Peer)
  unfolding add_seeds crawl_from
  crawl o reference seeds visits =
      crawl_from o visits (o.max_dials + 1) 0 (add_seeds seeds (new reference))
