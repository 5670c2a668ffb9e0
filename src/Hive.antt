-- ===== src/Hive.antt =====
-- The gossip decoder of rust/ds-net/src/hive.rs. The protobuf decoder, the varints and the
-- multiaddresses are other packages', and are arguments.
pub mod Gossip
mod Tests
use directswarm.Base.{
  ℕ, zero, suc, ◌+◌, ◌≤◌, ◌≡◌, Bool, true, false, List, [], ◌∷◌, ◌++◌, Option, none, some, ltb,
  ◌==◌, not, if◌then◌else◌, length, take, drop, is_empty, u64_max,
}
use directswarm.Wire.{Bytes}
use directswarm.Base.Results.{Result, err, ok, ◌>>=◌, or_fail}

-- `signature` and `nonce` are left out: nothing reads them.
pub record BzzAddressPb : Type 0 where
  pub underlay : Bytes
  pub overlay : Bytes

pub data UnderlayError : Type 0 where
  empty : UnderlayError
  too_large : UnderlayError
  too_many : UnderlayError
  bad_varint : UnderlayError
  bad_address : UnderlayError

-- A component of a multiaddress, as far as `extract_peer_id` looks at it.
pub data Protocol (Peer : Type 0) : Type 0 where
  p2p : Peer → Protocol Peer
  other : Protocol Peer

-- `Multiaddr` with `try_from`, `to_vec` and `iter`.
pub record Multiaddr (Addr Peer : Type 0) : Type 0 where
  pub try_from : Bytes → Option Addr
  pub to_vec : Addr → Bytes
  pub iter : Addr → List (Protocol Peer)
  pub try_from-to_vec : (a : Addr) → try_from (to_vec a) ≡ some a

-- `decode::u64` and `encode::u64` of the crate unsigned_varint.
pub record UnsignedVarint : Type 0 where
  pub decode : Bytes → Option (ℕ × Bytes)
  pub encode : ℕ → Bytes
  pub decode-nil : decode [] ≡ none
  pub decode-encode :
      (n : ℕ) (rest : Bytes) → n ≤ u64_max → decode (encode n ++ rest) ≡ some (n, rest)

pub record PeerHint (Addr Peer : Type 0) : Type 0 where
  pub peer_id : Peer
  pub overlay : Bytes
  pub underlays : List Addr

abbrev pub underlay_list_prefix : ℕ
underlay_list_prefix = 0x99

abbrev pub max_underlay_bytes : ℕ
max_underlay_bytes = 2_048

abbrev pub max_underlays_per_peer : ℕ
max_underlays_per_peer = 20

abbrev pub find_map : {A B : Type 0} → (A → Option B) → List A → Option B
find_map f [] = none
find_map f (x ∷ xs) = elim (f x) [ none ↦ find_map f xs | some y ↦ some y ]

module _ {Addr Peer : Type 0} (net : Multiaddr Addr Peer) (wire : UnsignedVarint) where
  abbrev pub peer_of : Protocol Peer → Option Peer
  peer_of (p2p peer) = some peer
  peer_of other = none

  abbrev pub extract_peer_id : Addr → Option Peer
  extract_peer_id addr = find_map peer_of (net.iter addr)

  -- A round behind the length, of which `next` is the next round.
  unfoldable pub take_underlay :
      (Bytes → Result UnderlayError (List Addr)) → ℕ × Bytes → Result UnderlayError (List Addr)
  take_underlay next (len, rest) =
      if ltb (length rest) len
      then err empty
      else (or_fail (net.try_from (take len rest)) bad_address >>= λ addr.
          next (drop len rest) >>= λ out. ok (addr ∷ out))

  -- The loop, when `n` more addresses may be pushed.
  unfoldable pub list_from : ℕ → Bytes → Result UnderlayError (List Addr)
  list_from n [] = ok []
  list_from zero (b ∷ data_) = err too_many
  list_from (suc n) (b ∷ data_) =
      or_fail (wire.decode (b ∷ data_)) bad_varint >>= λ x. take_underlay (list_from n) x

  unfoldable pub deserialize_list : Bytes → Result UnderlayError (List Addr)
  deserialize_list bytes = list_from max_underlays_per_peer bytes

  unfoldable pub deserialize_underlays : Bytes → Result UnderlayError (List Addr)
  deserialize_underlays [] = err empty
  deserialize_underlays (b ∷ bytes) =
      if ltb max_underlay_bytes (length (b ∷ bytes))
      then err too_large
      else if b == underlay_list_prefix
      then deserialize_list bytes
      else or_fail (net.try_from (b ∷ bytes)) bad_address >>= λ addr. ok (addr ∷ [])

  abbrev pub named : BzzAddressPb → List Addr → Option Peer → Option (PeerHint Addr Peer)
  named p underlays none = none
  named p underlays (some peer) =
      some (record { peer_id = peer; overlay = p.overlay; underlays = underlays })

  abbrev pub reached : BzzAddressPb → Result UnderlayError (List Addr) → Option (PeerHint Addr Peer)
  reached p (err reason) = none
  reached p (ok underlays) = named p underlays (find_map extract_peer_id underlays)

  -- One turn of the loop of `decode_peers`.
  unfoldable pub hint_of : BzzAddressPb → Option (PeerHint Addr Peer)
  hint_of p = if length p.overlay == 32 then reached p (deserialize_underlays p.underlay) else none

  abbrev pub push_hint :
      Option (PeerHint Addr Peer) → List (PeerHint Addr Peer) → List (PeerHint Addr Peer)
  push_hint none out = out
  push_hint (some hint) out = hint ∷ out

  unfoldable pub collect_hints : List BzzAddressPb → List (PeerHint Addr Peer)
  collect_hints [] = []
  collect_hints (p ∷ peers) = push_hint (hint_of p) (collect_hints peers)

  -- `decoded` is what `PeersPb::decode` makes of the body.
  unfoldable pub decode_peers : Option (List BzzAddressPb) → List (PeerHint Addr Peer)
  decode_peers none = []
  decode_peers (some peers) = collect_hints peers
