-- ===== src/Crawl/Polite.antt =====
-- What the crawler keeps to: its caps, its dial rate, and one attempt for each peer.
pub mod Ends
pub mod Run
use mathlib.Core.Path.{subst}
use directswarm.Base.{
  ℕ, zero, suc, ◌+◌, ◌-◌, ◌≤◌, ◌<◌, ◌≡◌, refl, sym, ap, ◌∙◌, ◌⊎◌, inl, inr, Bool, true, false, not,
  List, [], ◌∷◌, ◌++◌, map, append_assoc, append-nil, Option, none, some, ltb, if◌then◌else◌, any,
  wrap_add, Eq, arith, length, length-append, All, All-append, In, In-append, In-append_left,
  In-append_right, Bool-cases, u64_max,
}
use directswarm.Base.Results.{Result, err, ok, ◌>>=◌}
use directswarm.Swarm.{SwarmAddress}
use directswarm.Hive.{Multiaddr, PeerHint}
use directswarm.Crawl.{
  CrawlOptions, StopReason, wall_cap, max_dials, frontier_drained, DialError, Visit, Heard, Crawl,
  wait_before, contains, extract_peer_id, enqueue, add_seed, add_seeds, hear, harvest,
  dial_and_handshake, greeted, dial_first, visit, stopped, round, crawl_from, new, crawl,
}
use directswarm.Crawl.Distinct.{AllDistinct, AllDistinct-append_one, AllDistinct-middle, not_In-any}

module _ {Addr : Type 0} where
  -- Any two dials are an interval apart.
  abbrev pub Spaced : ℕ → List (ℕ × Addr) → Type 0
  Spaced interval [] = Unit {0}
  Spaced interval ((at, addr) ∷ later) =
      All (λ d. at + interval ≤ d.0) later × Spaced interval later

  -- The last dial is not before any other, nor after now.
  abbrev pub IsLast : Option ℕ → ℕ → List (ℕ × Addr) → Type 0
  IsLast none clock dialed = dialed ≡ []
  IsLast (some at) clock dialed = (at ≤ clock) × All (λ d. d.0 ≤ at) dialed

  Spaced-append_one :
      (interval now : ℕ) (addr : Addr) (dialed : List (ℕ × Addr))
      → Spaced interval dialed
      → All (λ d. d.0 + interval ≤ now) dialed
      → Spaced interval (dialed ++ (now, addr) ∷ [])
  Spaced-append_one interval now addr [] h k = (tt, tt)
  Spaced-append_one interval now addr ((at, a) ∷ later) (apart, h) (before, k) =
      (All-append _ later _ apart (before, tt), Spaced-append_one interval now addr later h k)

All-weaken :
    {A : Type 0} (P Q : A → Type 0) → ((x : A) → P x → Q x) → (xs : List A) → All P xs → All Q xs
All-weaken P Q f [] h = tt
All-weaken P Q f (x ∷ xs) (hx, h) = (f x hx, All-weaken P Q f xs h)

module _ {Addr Peer : Type 0} ⦃e : Eq Peer⦄ (net : Multiaddr Addr Peer)
    (to_string : Addr → List ℕ) where
  abbrev pub peers : List (PeerHint Addr Peer) → List Peer
  peers = map (λ h. h.peer_id)

  -- Of a crawl's fields: the peers that were queued are those that have left the frontier and those
  -- that wait in it.
  pub record Facts (o : CrawlOptions) (done queued waiting gone : List Peer)
      (dialed : List (ℕ × Addr)) (last_dial : Option ℕ) (clock attempted : ℕ) : Type 0 where
    pub split : queued ≡ done ++ waiting
    pub distinct : AllDistinct queued
    pub within : (q : Peer) → In q gone → In q done
    pub once : AllDistinct gone
    pub spaced : Spaced o.dial_interval dialed
    pub last : IsLast last_dial clock dialed
    pub counted : length dialed ≤ attempted
    pub capped : attempted ≤ o.max_dials

  abbrev pub Inv : CrawlOptions → List Peer → Crawl Addr Peer → Type 0
  Inv o done s =
      Facts o done s.queued (peers s.frontier) s.disconnected s.dialed s.last_dial s.clock
        s.stats.dials_attempted

  peers-append :
      (xs : List (PeerHint Addr Peer)) (h : PeerHint Addr Peer)
      → peers (xs ++ h ∷ []) ≡ peers xs ++ h.peer_id ∷ []
  peers-append [] h = refl
  peers-append (x ∷ xs) h = ap (◌∷◌ x.peer_id) (peers-append xs h)

  module _ (o : CrawlOptions) where
    -- A new peer at the end of the frontier.
    pub queued-Inv :
        (done : List Peer) (hint : PeerHint Addr Peer) (s : Crawl Addr Peer)
        → contains net to_string hint.peer_id s.queued ≡ false
        → Inv o done s
        → Inv o done (record s {
          queued = s.queued ++ hint.peer_id ∷ [];
          frontier = s.frontier ++ hint ∷ [];
        })
    queued-Inv done hint s fresh h = record {
      split =
          ap (λ q. q ++ hint.peer_id ∷ []) h.split
          ∙ append_assoc done (peers s.frontier) (hint.peer_id ∷ [])
          ∙ ap (λ p. done ++ p) (sym (peers-append s.frontier hint));
      distinct =
          AllDistinct-append_one s.queued hint.peer_id h.distinct
            (not_In-any hint.peer_id s.queued fresh);
      within = h.within;
      once = h.once;
      spaced = h.spaced;
      last = h.last;
      counted = h.counted;
      capped = h.capped;
    }

    hear-Inv :
        (done : List Peer) (x : Heard Addr Peer) (s : Crawl Addr Peer)
        → Inv o done s
        → Inv o done (hear net to_string x s)
    unfolding hear
    hear-Inv done (hint, tick) s h =
        elim (Bool-cases (contains net to_string hint.peer_id s.queued)) [
          | inl known ↦ rw known h
          | inr fresh ↦ rw fresh (queued-Inv done hint s fresh h)
        ]

    harvest-Inv :
        (done : List Peer) (heard : List (Heard Addr Peer)) (s : Crawl Addr Peer)
        → Inv o done s
        → Inv o done (harvest net to_string heard s)
    unfolding harvest
    harvest-Inv done [] s h = h
    harvest-Inv done (x ∷ rest) s h =
        harvest-Inv done rest (hear net to_string x s) (hear-Inv done x s h)

    harvest-disconnected :
        (heard : List (Heard Addr Peer)) (s : Crawl Addr Peer)
        → (harvest net to_string heard s).disconnected ≡ s.disconnected
    unfolding harvest hear
    harvest-disconnected [] s = refl
    harvest-disconnected (x ∷ rest) s = harvest-disconnected rest (hear net to_string x s)

    -- A hang-up with a peer that has left the frontier and was not hung up on.
    gone-Inv :
        (done : List Peer) (p : Peer) (s : Crawl Addr Peer)
        → In p done
        → ¬ In p s.disconnected
        → Inv o done s
        → Inv o done (record s { disconnected = s.disconnected ++ p ∷ [] })
    gone-Inv done p s there fresh h = record {
      split = h.split;
      distinct = h.distinct;
      within = λ q m. elim (In-append q s.disconnected (p ∷ []) m) [
        | inl old ↦ h.within q old
        | inr (inl same) ↦ subst (λ x. In x done) (sym same) there
        | inr (inr nowhere) ↦ absurd nowhere
      ];
      once = AllDistinct-append_one s.disconnected p h.once fresh;
      spaced = h.spaced;
      last = h.last;
      counted = h.counted;
      capped = h.capped;
    }

    greeted-Inv :
        (done : List Peer) (hint : PeerHint Addr Peer) (v : Visit Addr Peer)
        (r : Result DialError (SwarmAddress × ℕ)) (s : Crawl Addr Peer)
        → In hint.peer_id done
        → ¬ In hint.peer_id s.disconnected
        → Inv o done s
        → Inv o done (greeted net to_string hint v r s)
    unfolding greeted
    greeted-Inv done hint v (err reason) s there fresh h =
        gone-Inv done hint.peer_id s there fresh h
    greeted-Inv done hint v (ok (overlay, rtt_ms)) s there fresh h =
        gone-Inv done hint.peer_id (harvest net to_string v.heard _) there
          (λ m. fresh (subst (In hint.peer_id) (harvest-disconnected v.heard _) m))
          (harvest-Inv done v.heard _ h)

    -- The wait makes the next dial come an interval after all the others.
    waited :
        (last_dial : Option ℕ) (clock late : ℕ) (dialed : List (ℕ × Addr))
        → IsLast last_dial clock dialed
        → All
            (λ d.
              d.0 + o.dial_interval ≤ clock + wait_before o.dial_interval last_dial clock + late)
            dialed
    waited none clock late dialed e = rw e tt
    waited (some at) clock late dialed (past, before) =
        All-weaken (λ d. d.0 ≤ at) _ (λ d k. omega (arith, k)) dialed before

    dialed-Inv :
        (done : List Peer) (now : ℕ) (addr : Addr) (s : Crawl Addr Peer) (attempted : ℕ)
        → All (λ d. d.0 + o.dial_interval ≤ now) s.dialed
        → s.stats.dials_attempted < attempted
        → attempted ≤ o.max_dials
        → Inv o done s
        → Facts o done s.queued
            (peers s.frontier)
            s.disconnected
            (s.dialed ++ (now, addr) ∷ [])
            (some now)
            now
            attempted
    dialed-Inv done now addr s attempted apart more few h = record {
      split = h.split;
      distinct = h.distinct;
      within = h.within;
      once = h.once;
      spaced = Spaced-append_one o.dial_interval now addr s.dialed h.spaced apart;
      last = (
        omega arith,
        All-append _ s.dialed _
            (All-weaken _ (λ d. d.0 ≤ now) (λ d k. omega (arith, k)) s.dialed apart)
            (omega arith, tt),
      );
      counted = omega (arith, h.counted, length-append s.dialed ((now, addr) ∷ []));
      capped = few;
    }

    skipped-Inv :
        (done : List Peer) (now : ℕ) (s : Crawl Addr Peer) (attempted : ℕ)
        → All (λ d. d.0 + o.dial_interval ≤ now) s.dialed
        → s.stats.dials_attempted < attempted
        → attempted ≤ o.max_dials
        → Inv o done s
        → Facts o done s.queued (peers s.frontier) s.disconnected s.dialed (some now) now attempted
    skipped-Inv done now s attempted apart more few h = record {
      split = h.split;
      distinct = h.distinct;
      within = h.within;
      once = h.once;
      spaced = h.spaced;
      last = (omega arith, All-weaken _ (λ d. d.0 ≤ now) (λ d k. omega (arith, k)) s.dialed apart);
      counted = omega (arith, h.counted);
      capped = few;
    }

    dial_first-Inv :
        (done : List Peer) (hint : PeerHint Addr Peer) (v : Visit Addr Peer) (addrs : List Addr)
        (now attempted : ℕ) (s : Crawl Addr Peer)
        → All (λ d. d.0 + o.dial_interval ≤ now) s.dialed
        → s.stats.dials_attempted < attempted
        → attempted ≤ o.max_dials
        → In hint.peer_id done
        → ¬ In hint.peer_id s.disconnected
        → Inv o done s
        → Inv o done (
            dial_first net to_string hint v addrs now (record s {
              clock = now;
              last_dial = some now;
              stats = record s.stats { dials_attempted = attempted };
            }))
    unfolding dial_first
    dial_first-Inv done hint v [] now attempted s apart more few there fresh h =
        skipped-Inv done now s attempted apart more few h
    dial_first-Inv done hint v (addr ∷ others) now attempted s apart more few there fresh h =
        greeted-Inv done hint v (dial_and_handshake net to_string hint.peer_id v) _ there fresh
          (dialed-Inv done now addr s attempted apart more few h)

    pub visit-Inv :
        (done : List Peer) (hint : PeerHint Addr Peer) (v : Visit Addr Peer) (s : Crawl Addr Peer)
        → In hint.peer_id done
        → ¬ In hint.peer_id s.disconnected
        → s.stats.dials_attempted < o.max_dials
        → o.max_dials ≤ u64_max
        → Inv o done s
        → Inv o done (visit net to_string o hint v s)
    unfolding visit
    visit-Inv done hint v s there fresh room word h =
        dial_first-Inv done hint v hint.underlays _ _ s
          (waited s.last_dial s.clock v.late s.dialed h.last) (omega arith) (omega arith) there
          fresh h

    harvest-attempted :
        (heard : List (Heard Addr Peer)) (s : Crawl Addr Peer)
        → (harvest net to_string heard s).stats.dials_attempted ≡ s.stats.dials_attempted
    unfolding harvest hear
    harvest-attempted [] s = refl
    harvest-attempted (x ∷ rest) s = harvest-attempted rest (hear net to_string x s)

    greeted-attempted :
        (hint : PeerHint Addr Peer) (v : Visit Addr Peer) (r : Result DialError (SwarmAddress × ℕ))
        (s : Crawl Addr Peer)
        → (greeted net to_string hint v r s).stats.dials_attempted ≡ s.stats.dials_attempted
    unfolding greeted
    greeted-attempted hint v (err reason) s = refl
    greeted-attempted hint v (ok (overlay, rtt_ms)) s = harvest-attempted v.heard _

    dial_first-attempted :
        (hint : PeerHint Addr Peer) (v : Visit Addr Peer) (addrs : List Addr) (now : ℕ)
        (s : Crawl Addr Peer)
        → (dial_first net to_string hint v addrs now s).stats.dials_attempted
          ≡ s.stats.dials_attempted
    unfolding dial_first
    dial_first-attempted hint v [] now s = refl
    dial_first-attempted hint v (addr ∷ others) now s =
        greeted-attempted hint v (dial_and_handshake net to_string hint.peer_id v) _

    pub visit-attempted :
        (hint : PeerHint Addr Peer) (v : Visit Addr Peer) (s : Crawl Addr Peer)
        → (visit net to_string o hint v s).stats.dials_attempted
          ≡ wrap_add s.stats.dials_attempted 1
    unfolding visit
    visit-attempted hint v s = dial_first-attempted hint v hint.underlays _ _
