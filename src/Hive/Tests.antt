-- ===== src/Hive/Tests.antt =====
-- A message of a hint, an entry without an underlay and one with a short overlay.
use directswarm.Base.{
  ℕ, ◌<◌, ◌≡◌, refl, inl, inr, List, [], ◌∷◌, none, some, arith, map, replicate, length,
}
use directswarm.Wire.{Bytes, decode_varint, decode_from}
use directswarm.Wire.Varint.{varint, varint_from}
use directswarm.Wire.Fields.{decode-varint}
use directswarm.Hive.{
  Protocol, p2p, other, Multiaddr, UnsignedVarint, PeerHint, BzzAddressPb, decode_peers,
}
use directswarm.Hive.Gossip.{Sent, framed, message_of, hints_in, decode_peers-message_of}

decode_varint-nil : decode_varint [] ≡ none
unfolding decode_varint decode_from
decode_varint-nil = refl

abbrev wire : UnsignedVarint
wire = record {
  decode = decode_varint;
  encode = varint;
  decode-nil = decode_varint-nil;
  decode-encode = decode-varint;
}

-- The first byte of an address names its peer.
abbrev components : Bytes → List (Protocol ℕ)
components [] = []
components (b ∷ bytes) = other ∷ p2p b ∷ []

abbrev net : Multiaddr Bytes ℕ
net = record { try_from = some; to_vec = λ a. a; iter = components; try_from-to_vec = λ a. refl }

abbrev one_hint : PeerHint Bytes ℕ
one_hint = record {
  peer_id = 7;
  overlay = replicate 32 5;
  underlays = (7 ∷ 8 ∷ []) ∷ (9 ∷ []) ∷ [];
}

abbrev no_underlay : BzzAddressPb
no_underlay = record { underlay = []; overlay = replicate 32 6 }

abbrev short_overlay : BzzAddressPb
short_overlay = record { underlay = 1 ∷ []; overlay = 6 ∷ [] }

abbrev batch : List (Sent net wire)
batch = inr no_underlay ∷ inl one_hint ∷ inr short_overlay ∷ []

framed_small : framed net wire one_hint.underlays ≡ 2 ∷ 7 ∷ 8 ∷ 1 ∷ 9 ∷ []
unfolding framed varint_from
framed_small = refl

small : length (framed net wire one_hint.underlays) < 2_048
small = rw framed_small (omega arith)

decode_peers-message_of_example :
    decode_peers net wire (some (map (message_of net wire) batch)) ≡ hints_in net wire batch
decode_peers-message_of_example =
    decode_peers-message_of net wire batch
      (inr (inl refl), ((refl, small, omega arith, refl), (inl (omega arith), tt)))
