-- ===== src/Crawl/Polite/Run.antt =====
-- The whole crawl, from its seeds to the reason why it ends.
use mathlib.Core.Path.{subst}
use directswarm.Base.{
  ℕ, zero, suc, ◌+◌, ◌≤◌, ◌<◌, ◌≡◌, refl, sym, ◌⊎◌, inl, inr, List, [], ◌∷◌, ◌++◌, append_assoc,
  Option, none, some, Eq, arith, replicate, In-append_right, Bool-cases, u64_max,
}
use directswarm.Swarm.{SwarmAddress}
use directswarm.Hive.{Multiaddr, PeerHint}
use directswarm.Crawl.{
  CrawlOptions, frontier_drained, Visit, Crawl, contains, extract_peer_id, add_seed, add_seeds,
  crawl_from, new, crawl,
}
use directswarm.Crawl.Distinct.{AllDistinct, AllDistinct-middle, In-any}
use directswarm.Crawl.Polite.{Inv, queued-Inv}
use directswarm.Crawl.Polite.Ends.{Ends, IsPolite, ended, round-Ends, popped-Inv}

List-cases : {A : Type 0} (xs : List A) → (xs ≡ []) ⊎ ((y : A) × (ys : List A) × (xs ≡ y ∷ ys))
List-cases [] = inl refl
List-cases (x ∷ xs) = inr (x, xs, refl)

module _ {Addr Peer : Type 0} ⦃e : Eq Peer⦄ (net : Multiaddr Addr Peer) (to_string : Addr → List ℕ)
    (o : CrawlOptions) where
  crawl_from-Ends :
      (visits : ℕ → Visit Addr Peer) (fuel k : ℕ) (done : List Peer) (s : Crawl Addr Peer)
      → o.max_dials ≤ u64_max
      → o.max_dials < s.stats.dials_attempted + fuel
      → Inv net to_string o done s
      → Ends net to_string o (crawl_from net to_string o visits fuel k s)
  unfolding crawl_from
  crawl_from-Ends visits zero k done s word enough h = absurd (omega (arith, h.capped))
  crawl_from-Ends visits (suc fuel) k done s word enough h = elim (List-cases s.frontier) [
    | inl drained ↦
        rw (drained, crawl_from) (ended net to_string o done frontier_drained s h drained)
    | inr (hint, rest, waiting) ↦
        let (popped, fresh) =
          popped-Inv net to_string o done hint rest (visits k).passed s waiting h in
        rw (waiting, crawl_from)
          (round-Ends net to_string o (done ++ hint.peer_id ∷ []) hint (visits k)
            (crawl_from net to_string o visits fuel (k + 1)) _
            (In-append_right hint.peer_id done (hint.peer_id ∷ []) (inl refl)) fresh word popped
            (λ s' h' more.
              crawl_from-Ends visits fuel (k + 1) (done ++ hint.peer_id ∷ []) s' word (omega arith)
                h'))
  ]

  -- The peers that the seeds name.
  named : Option Peer → List Peer → List Peer
  named none rest = rest
  named (some peer) rest = peer ∷ rest

  unfoldable pub seed_peers : List Addr → List Peer
  unfolding named
  seed_peers [] = []
  seed_peers (seed ∷ rest) = named (extract_peer_id net to_string seed) (seed_peers rest)

  add_seed-Inv :
      (seed : Addr) (peer : Peer) (later : List Peer) (s : Crawl Addr Peer)
      → Inv net to_string o [] s
      → AllDistinct (s.queued ++ peer ∷ later)
      → Inv net to_string o [] (add_seed net to_string seed (some peer) s)
        × AllDistinct ((add_seed net to_string seed (some peer) s).queued ++ later)
  add_seed-Inv seed peer later s h apart =
      let new_one = AllDistinct-middle s.queued peer later apart in
      let hint : PeerHint Addr Peer = record {
        peer_id = peer;
        overlay = replicate 32 0;
        underlays = seed ∷ [];
      } in
      elim (Bool-cases (contains net to_string peer s.queued)) [
        | inl known ↦ absurd (new_one (In-any peer s.queued known))
        | inr fresh ↦ rw fresh (
          queued-Inv net to_string o [] hint s fresh h,
          subst AllDistinct (sym (append_assoc s.queued (peer ∷ []) later)) apart,
        )
      ]

  add_any-Inv :
      (seed : Addr) (p : Option Peer) (later : List Peer) (s : Crawl Addr Peer)
      → Inv net to_string o [] s
      → AllDistinct (s.queued ++ named p later)
      → Inv net to_string o [] (add_seed net to_string seed p s)
        × AllDistinct ((add_seed net to_string seed p s).queued ++ later)
  unfolding named
  add_any-Inv seed none later s h apart = (h, apart)
  add_any-Inv seed (some peer) later s h apart = add_seed-Inv seed peer later s h apart

  add_seeds-Inv :
      (seeds : List Addr) (s : Crawl Addr Peer)
      → Inv net to_string o [] s
      → AllDistinct (s.queued ++ seed_peers seeds)
      → Inv net to_string o [] (add_seeds net to_string seeds s)
  unfolding add_seeds seed_peers
  add_seeds-Inv [] s h apart = h
  add_seeds-Inv (seed ∷ rest) s h apart =
      let (next, left) =
        add_any-Inv seed (extract_peer_id net to_string seed) (seed_peers rest) s h apart in
      add_seeds-Inv rest _ next left

  -- If the seeds name different peers, then whatever the peers and the clock do, the crawl ends: it
  -- makes at most `max_dials` dials, any two of them an interval or more apart; no peer is hung up on
  -- twice, and each such peer was a seed's or was heard of; and the stop reason is true, that is the
  -- time was over, or just `max_dials` candidates were tried, or no candidate is left.
  pub crawl-IsPolite :
      (reference : SwarmAddress) (seeds : List Addr) (visits : ℕ → Visit Addr Peer)
      → o.max_dials ≤ u64_max
      → AllDistinct (seed_peers seeds)
      → (s : Crawl Addr Peer) × (crawl net to_string o reference seeds visits ≡ some s)
        × IsPolite net to_string o s
  unfolding crawl
  crawl-IsPolite reference seeds visits word apart =
      crawl_from-Ends visits (o.max_dials + 1) 0 [] _ word (omega arith) (
        add_seeds-Inv seeds (new net to_string reference)
          (record {
            split = refl;
            distinct = tt;
            within = λ q m. m;
            once = tt;
            spaced = tt;
            last = refl;
            counted = omega arith;
            capped = omega arith;
          })
          apart)
