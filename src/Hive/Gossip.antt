-- ===== src/Hive/Gossip.antt =====
-- What `decode_peers` makes of a message of hints and malformed entries.
use directswarm.Base.{
  ℕ, zero, suc, ◌+◌, ◌≤◌, ◌<◌, ◌≡◌, ◌≢◌, ◌⊎◌, inl, inr, refl, ap, ◌∙◌, true, false, List, [], ◌∷◌,
  ◌++◌, map, none, some, ltb, ◌==◌, ==_iff, if◌then◌else◌, length, length-append, take-append,
  drop-append, arith, All, u64_max,
}
use directswarm.Base.Results.{Result, err, ok, ◌>>=◌, or_fail}
use directswarm.Wire.{Bytes}
use directswarm.Hive.{
  BzzAddressPb, UnderlayError, too_many, bad_varint, Multiaddr, UnsignedVarint, PeerHint, find_map,
  extract_peer_id, take_underlay, list_from, deserialize_list, deserialize_underlays, reached,
  hint_of, collect_hints, decode_peers,
}

module _ {Addr Peer : Type 0} (net : Multiaddr Addr Peer) (wire : UnsignedVarint) where
  -- The list as bee 2.8 sends it, behind its prefix.
  unfoldable pub framed : List Addr → Bytes
  framed [] = []
  framed (a ∷ addrs) = wire.encode (length (net.to_vec a)) ++ (net.to_vec a ++ framed addrs)

  framed_size :
      (a : Addr) (addrs : List Addr)
      → length (net.to_vec a) + length (framed addrs) ≤ length (framed (a ∷ addrs))
  unfolding framed
  framed_size a addrs = omega (
    arith,
    length-append (wire.encode (length (net.to_vec a))) (net.to_vec a ++ framed addrs),
    length-append (net.to_vec a) (framed addrs),
  )

  decode-framed :
      (a : Addr) (addrs : List Addr)
      → length (net.to_vec a) ≤ u64_max
      → wire.decode (framed (a ∷ addrs))
        ≡ some (length (net.to_vec a), net.to_vec a ++ framed addrs)
  unfolding framed
  decode-framed a addrs h =
      wire.decode-encode (length (net.to_vec a)) (net.to_vec a ++ framed addrs) h

  list_from-decode :
      (n : ℕ) (bytes : Bytes) (x : ℕ × Bytes)
      → wire.decode bytes ≡ some x
      → list_from net wire (suc n) bytes ≡ take_underlay net wire (list_from net wire n) x
  unfolding list_from
  list_from-decode n [] x e = absurd (cc (e, wire.decode-nil))
  list_from-decode n (b ∷ bytes) x e =
      ap (λ o. or_fail o bad_varint >>= λ y. take_underlay net wire (list_from net wire n) y) e

  list_from-full :
      (bytes : Bytes) (x : ℕ × Bytes)
      → wire.decode bytes ≡ some x
      → list_from net wire zero bytes ≡ err too_many
  unfolding list_from
  list_from-full [] x e = absurd (cc (e, wire.decode-nil))
  list_from-full (b ∷ bytes) x e = refl

  pushed :
      (n : ℕ) (a : Addr) (addrs : List Addr)
      → ((if ltb n (length addrs) then err too_many else ok addrs) >>= λ out. ok (a ∷ out))
        ≡ (if ltb (suc n) (length (a ∷ addrs)) then err too_many else ok (a ∷ addrs))
  pushed n a addrs = ground arith

  take_underlay-append :
      (next : Bytes → Result UnderlayError (List Addr)) (a : Addr) (rest : Bytes)
      → take_underlay net wire next (length (net.to_vec a), net.to_vec a ++ rest)
        ≡ (next rest >>= λ out. ok (a ∷ out))
  unfolding take_underlay
  take_underlay-append next a rest =
      let fits : ltb (length (net.to_vec a ++ rest)) (length (net.to_vec a)) ≡ false =
        ground (arith, length-append (net.to_vec a) rest) in
      rw
        (
          fits,
          take-append (net.to_vec a) rest,
          drop-append (net.to_vec a) rest,
          net.try_from-to_vec a,
        )
        refl

  list_from-framed :
      (n : ℕ) (addrs : List Addr)
      → length (framed addrs) ≤ u64_max
      → list_from net wire n (framed addrs)
        ≡ (if ltb n (length addrs) then err too_many else ok addrs)
  list_from-framed zero [] h = unfold framed list_from in ground arith
  list_from-framed (suc n) [] h = unfold framed list_from in ground arith
  list_from-framed zero (a ∷ addrs) h =
      let size = framed_size a addrs in
      list_from-full (framed (a ∷ addrs)) _ (decode-framed a addrs (omega arith)) ∙ ground arith
  list_from-framed (suc n) (a ∷ addrs) h =
      let size = framed_size a addrs in
      list_from-decode n (framed (a ∷ addrs)) _ (decode-framed a addrs (omega arith))
      ∙ take_underlay-append (list_from net wire n) a (framed addrs)
      ∙ ap (λ r. r >>= λ out. ok (a ∷ out)) (list_from-framed n addrs (omega arith))
      ∙ pushed n a addrs

  deserialize_underlays-framed :
      (addrs : List Addr)
      → length (framed addrs) < 2_048
      → deserialize_underlays net wire (0x99 ∷ framed addrs)
        ≡ (if ltb 20 (length addrs) then err too_many else ok addrs)
  unfolding deserialize_underlays deserialize_list
  deserialize_underlays-framed addrs h =
      let fits : ltb 2_048 (length (0x99 ∷ framed addrs)) ≡ false = ground arith in
      rw fits (list_from-framed 20 addrs (omega arith))

  -- A message is made of hints and of entries that no hint was made from.
  abbrev pub Sent : Type 0
  Sent = PeerHint Addr Peer ⊎ BzzAddressPb

  abbrev pub message_of : Sent → BzzAddressPb
  message_of (inl hint) = record { underlay = 0x99 ∷ framed hint.underlays; overlay = hint.overlay }
  message_of (inr p) = p

  abbrev pub IsSent : Sent → Type 0
  IsSent (inl hint) =
      (length hint.overlay ≡ 32)
      × (length (framed hint.underlays) < 2_048)
      × (length hint.underlays ≤ 20)
      × (find_map (extract_peer_id net wire) hint.underlays ≡ some hint.peer_id)
  IsSent (inr p) = (length p.overlay ≢ 32) ⊎ (p.underlay ≡ []) ⊎ (2_048 < length p.underlay)

  unfoldable pub hints_in : List Sent → List (PeerHint Addr Peer)
  hints_in [] = []
  hints_in (inl hint ∷ sent) = hint ∷ hints_in sent
  hints_in (inr p ∷ sent) = hints_in sent

  hint_of-message_of :
      (hint : PeerHint Addr Peer)
      → IsSent (inl hint)
      → hint_of net wire (message_of (inl hint)) ≡ some hint
  unfolding hint_of
  hint_of-message_of hint (wide, size, few, peer) =
      let same : (length hint.overlay == 32) ≡ true =
        ground (arith, ==_iff (length hint.overlay) 32) in
      let room : ltb 20 (length hint.underlays) ≡ false = ground arith in
      rw (same, deserialize_underlays-framed hint.underlays size, room, peer) refl

  reached-short :
      (p : BzzAddressPb) (u : Bytes)
      → u ≡ [] ⊎ 2_048 < length u
      → reached net wire p (deserialize_underlays net wire u) ≡ none
  unfolding deserialize_underlays
  reached-short p [] h = refl
  reached-short p (b ∷ bytes) (inl e) = absurd (omega (arith, ap length e))
  reached-short p (b ∷ bytes) (inr long) =
      let large : ltb 2_048 (length (b ∷ bytes)) ≡ true = ground arith in rw large refl

  hint_of-malformed : (p : BzzAddressPb) → IsSent (inr p) → hint_of net wire p ≡ none
  unfolding hint_of
  hint_of-malformed p (inl other_size) =
      let differs : (length p.overlay == 32) ≡ false =
        ground (arith, ==_iff (length p.overlay) 32) in
      rw differs refl
  hint_of-malformed p (inr short) =
      ap (λ r. if length p.overlay == 32 then r else none) (reached-short p p.underlay short)
      ∙ ground arith

  -- If the hints of a message have an overlay of 32 bytes, at most 20 addresses that take less than
  -- 2048 bytes in the list framing, and the first peer of these addresses as their peer, then the
  -- decoder returns just these hints in order, whatever stands between them with an overlay of
  -- another length, no underlay or one of more than 2048 bytes.
  pub decode_peers-message_of :
      (sent : List Sent)
      → All IsSent sent
      → decode_peers net wire (some (map message_of sent)) ≡ hints_in sent
  unfolding decode_peers collect_hints hints_in
  decode_peers-message_of [] h = refl
  decode_peers-message_of (inl hint ∷ sent) (good, h) =
      rw (hint_of-message_of hint good) (ap (◌∷◌ hint) (decode_peers-message_of sent h))
  decode_peers-message_of (inr p ∷ sent) (malformed, h) =
      rw (hint_of-malformed p malformed) (decode_peers-message_of sent h)
