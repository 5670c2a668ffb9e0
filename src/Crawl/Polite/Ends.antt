-- ===== src/Crawl/Polite/Ends.antt =====
-- The rounds of the crawl up to the reason why it ends.
use mathlib.Core.Path.{subst}
use directswarm.Base.{
  ℕ, ◌+◌, ◌≤◌, ◌<◌, ◌≡◌, refl, sym, ap, ◌∙◌, inl, inr, List, [], ◌∷◌, ◌++◌, append_assoc, Option,
  none, some, ltb, Eq, arith, length, In, In-append_left, Bool-cases, u64_max,
}
use directswarm.Hive.{Multiaddr, PeerHint}
use directswarm.Crawl.{
  CrawlOptions, StopReason, wall_cap, max_dials, frontier_drained, Visit, Crawl, visit, stopped,
  round,
}
use directswarm.Crawl.Distinct.{AllDistinct, AllDistinct-middle}
use directswarm.Crawl.Polite.{Spaced, IsLast, Inv, peers, visit-Inv, visit-attempted}

module _ {Addr Peer : Type 0} ⦃e : Eq Peer⦄ (net : Multiaddr Addr Peer) (to_string : Addr → List ℕ)
    (o : CrawlOptions) where
  -- Why the crawl ended.
  abbrev pub Because : Crawl Addr Peer → Option StopReason → Type 0
  Because s none = ⊥
  Because s (some wall_cap) = o.wall_cap ≤ s.clock
  Because s (some max_dials) = s.stats.dials_attempted ≡ o.max_dials
  Because s (some frontier_drained) = s.frontier ≡ []

  pub record IsPolite (s : Crawl Addr Peer) : Type 0 where
    pub capped : length s.dialed ≤ o.max_dials
    pub spaced : Spaced o.dial_interval s.dialed
    pub once : AllDistinct s.disconnected
    pub known : (q : Peer) → In q s.disconnected → In q s.queued
    pub because : Because s s.stats.stop_reason

  abbrev pub Ends : Option (Crawl Addr Peer) → Type 0
  Ends r = (s : Crawl Addr Peer) × (r ≡ some s) × IsPolite s

  pub ended :
      (done : List Peer) (reason : StopReason) (s : Crawl Addr Peer)
      → Inv net to_string o done s
      → Because s (some reason)
      → Ends (some (stopped net to_string reason s))
  ended done reason s h why = (
    stopped net to_string reason s,
    refl,
    record {
      capped = omega (arith, h.counted, h.capped);
      spaced = h.spaced;
      once = h.once;
      known = λ q m.
          subst (In q) (sym h.split)
            (In-append_left q done (peers net to_string s.frontier) (h.within q m));
      because = because reason why;
    },
  )
    where
      because :
          (reason : StopReason)
          → Because s (some reason)
          → Because (stopped net to_string reason s) (some reason)
      because wall_cap k = k
      because max_dials k = k
      because frontier_drained k = k

  pub round-Ends :
      (done : List Peer) (hint : PeerHint Addr Peer) (v : Visit Addr Peer)
      (next : Crawl Addr Peer → Option (Crawl Addr Peer)) (s : Crawl Addr Peer)
      → In hint.peer_id done
      → ¬ In hint.peer_id s.disconnected
      → o.max_dials ≤ u64_max
      → Inv net to_string o done s
      → ((s' : Crawl Addr Peer)
          → Inv net to_string o done s'
          → s'.stats.dials_attempted ≡ s.stats.dials_attempted + 1
          → Ends (next s'))
      → Ends (round net to_string o hint v next s)
  unfolding round
  round-Ends done hint v next s there fresh word h on = elim (Bool-cases (ltb s.clock o.wall_cap)) [
    | inr late ↦ rw late (ended done wall_cap s h (ground arith))
    | inl in_time ↦ elim (Bool-cases (ltb s.stats.dials_attempted o.max_dials)) [
      | inr full ↦ rw (in_time, full) (ended done max_dials s h (ground (arith, h.capped)))
      | inl room ↦
          let fits : s.stats.dials_attempted < o.max_dials = ground arith in
          rw (in_time, room)
            (on (visit net to_string o hint v s)
              (visit-Inv net to_string o done hint v s there fresh fits word h)
              (omega (arith, visit-attempted net to_string o hint v s)))
    ]
  ]

  -- A candidate leaves the frontier.
  pub popped-Inv :
      (done : List Peer) (hint : PeerHint Addr Peer) (rest : List (PeerHint Addr Peer)) (passed : ℕ)
      (s : Crawl Addr Peer)
      → s.frontier ≡ hint ∷ rest
      → Inv net to_string o done s
      → Inv net to_string o
          (done ++ hint.peer_id ∷ [])
          (record s { frontier = rest; clock = s.clock + passed })
        × (¬ In hint.peer_id s.disconnected)
  popped-Inv done hint rest passed s e h =
      let order : s.queued ≡ done ++ hint.peer_id ∷ peers net to_string rest =
        h.split ∙ ap (λ f. done ++ peers net to_string f) e in
      let fresh =
        AllDistinct-middle done hint.peer_id (peers net to_string rest)
          (subst AllDistinct order h.distinct) in
      (
        record {
          split = order ∙ sym (append_assoc done (hint.peer_id ∷ []) (peers net to_string rest));
          distinct = h.distinct;
          within = λ q m. In-append_left q done (hint.peer_id ∷ []) (h.within q m);
          once = h.once;
          spaced = h.spaced;
          last = later s.last_dial h.last;
          counted = h.counted;
          capped = h.capped;
        },
        λ m. fresh (h.within hint.peer_id m),
      )
    where
      later : (l : Option ℕ) → IsLast l s.clock s.dialed → IsLast l (s.clock + passed) s.dialed
      later none k = k
      later (some at) (k, all) = (omega arith, all)
