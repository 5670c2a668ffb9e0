-- ===== src/Crawl/Tests.antt =====
-- A crawl from one seed, whose peer tells of another and of itself.
use mathlib.Core.Option
use directswarm.Base.{ℕ, zero, suc, ◌≡◌, refl, List, [], ◌∷◌, some, arith, replicate, nat_eq}
use directswarm.Wire.{Bytes}
use directswarm.Hive.{Protocol, p2p, Multiaddr, PeerHint}
use directswarm.Crawl.{
  CrawlOptions, Visit, Crawl, connected, identified, failed, timed_out, shaken, not_opened, crawl,
  add_seeds, hear, harvest, await_identify, dial_and_handshake, greeted, dial_first, visit, round,
  crawl_from,
}
use directswarm.Crawl.Polite.Ends.{IsPolite}
use directswarm.Crawl.Polite.Run.{seed_peers, crawl-IsPolite}

abbrev components : Bytes → List (Protocol ℕ)
components [] = []
components (b ∷ bytes) = p2p b ∷ []

abbrev net : Multiaddr Bytes ℕ
net = record { try_from = some; to_vec = λ a. a; iter = components; try_from-to_vec = λ a. refl }

abbrev as_text : Bytes → List ℕ
as_text a = a

abbrev options : CrawlOptions
options = record { max_dials = 2; dial_interval = 500; wall_cap = 10_000 }

abbrev about : ℕ → PeerHint Bytes ℕ
about p = record { peer_id = p; overlay = replicate 32 p; underlays = (p ∷ []) ∷ [] }

-- The seed's peer is met and gossips; whoever comes later fails.
abbrev visits : ℕ → Visit Bytes ℕ
visits zero = record {
  passed = 0;
  late = 1;
  events = connected 7 ∷ identified 7 ∷ [];
  ending = timed_out;
  v15 = not_opened;
  v14 = shaken (replicate 32 7);
  rtt_ms = 30;
  tick = 40;
  heard = (about 8, 41) ∷ (about 7, 42) ∷ [];
}
visits (suc k) = record {
  passed = 100;
  late = 2;
  events = failed 8 ∷ [];
  ending = timed_out;
  v15 = not_opened;
  v14 = not_opened;
  rtt_ms = 0;
  tick = 50;
  heard = [];
}

-- The second dial waits for its interval.
two_dials :
    Option.map (λ s. s.dialed) (crawl net as_text options (replicate 32 0) ((7 ∷ []) ∷ []) visits)
    ≡ some ((1, 7 ∷ []) ∷ (503, 8 ∷ []) ∷ [])
unfolding crawl add_seeds crawl_from round visit dial_first dial_and_handshake await_identify
    greeted harvest hear
two_dials = refl

-- A peer that two seeds name is dialed twice.
named_twice :
    Option.map
      (λ s. s.disconnected)
      (crawl net as_text options (replicate 32 0) ((7 ∷ 1 ∷ []) ∷ (7 ∷ 2 ∷ []) ∷ []) visits)
    ≡ some (7 ∷ 7 ∷ [])
unfolding crawl add_seeds crawl_from round visit dial_first dial_and_handshake await_identify
    greeted harvest hear
named_twice = refl

crawl-IsPolite_example :
    (s : Crawl Bytes ℕ) × (crawl net as_text options (replicate 32 0) ((7 ∷ []) ∷ []) visits
      ≡ some s)
    × IsPolite net as_text options s
unfolding seed_peers
crawl-IsPolite_example =
    crawl-IsPolite net as_text options (replicate 32 0) ((7 ∷ []) ∷ []) visits (omega arith)
      ((λ m. m), tt)
