-- ===== src/Rendezvous.antt =====
-- The exchange between a buddy and the handshake server: the signed PEER_LIST that
-- internal/role/handshake.go makes (`asProtocolPeer`, `signedPeerList`, `replyIncompatible`).
-- The server's handler is in Serve, the buddy's poll of internal/role/register.go in Poll.
pub mod Serve
pub mod Gates
pub mod Poll
pub mod Agreement
pub mod Vouched
mod Tests
use buddynet.Support.{
  ℕ, ◌/◌, Bool, true, Option, none, some, List, [], ◌∷◌, Text, Map, if◌then◌else◌,
}
use buddynet.Support.Int.{ℤ, pos}
use buddynet.Ticket.{Stdlib}
use buddynet.Peer.{Peer, precedes}
use buddynet.Handshake.{Candidate, HsPeer, Message}
use buddynet.Handshake.Admission.{second}

-- The fields of a protocol.Message that a PEER_LIST carries.
pub record Reply : Type 0 where
  pub is_peer_list : Bool
  pub ver : ℤ
  pub peers : List Peer
  pub ts : ℤ
  pub sig : Text
  pub ticket : Option (Text × Text)

-- What both sides call beside `Stdlib` and `Codec`: base64.StdEncoding and JSON, and netip's reading
-- of an endpoint, its address without the v6 mapping.
pub record Wire : Type 0 where
  pub encode_std : Text → Text
  pub read_register : Text → Option Message
  pub marshal_reply : Reply → Option Text
  pub read_reply : Text → Option Reply
  pub peer_list_payload : Text → ℤ → List Peer → Text
  pub parse_addr_port : Text → Option (Text × ℕ)
  pub is_unspecified : Text → Bool
  pub is_multicast : Text → Bool

abbrev pub version : ℤ
version = pos 8

abbrev pub Candidates : Type 0
Candidates = List (Text × Bool)

-- sort.Slice by address. The addresses of a peer of the registry differ; where a roster repeats one,
-- the source leaves the order of the two open.
unfoldable pub place_cand : Text × Bool → Candidates → Candidates
place_cand c [] = c ∷ []
place_cand c (d ∷ cs) =
    let rest = place_cand c cs in if precedes d.0 c.0 then d ∷ rest else c ∷ d ∷ cs

unfoldable pub sort_cands : Candidates → Candidates
sort_cands [] = []
sort_cands (c ∷ cs) = place_cand c (sort_cands cs)

unfoldable pub values_of : Map Text Candidate → Candidates
values_of [] = []
values_of ((key, c) ∷ m) = (c.addr, c.v6) ∷ values_of m

unfoldable pub candidates : HsPeer → Candidates
candidates p = sort_cands (values_of p.cands)

unfoldable pub as_protocol_peer : HsPeer → Text → Peer
as_protocol_peer p relay = record {
  id = p.id;
  pubkey = p.pubkey;
  virtual_ip = p.virtual_ip;
  name = p.name;
  candidates = candidates p;
  relay = relay;
  last_seen = p.seen / second;
}

unfoldable pub reply_incompatible : Reply
reply_incompatible = record {
  is_peer_list = true;
  ver = version;
  peers = [];
  ts = pos 0;
  sig = [];
  ticket = none;
}

unfoldable pub signed_peer_list : Stdlib → Wire → Text → Text → List Peer → ℕ → Reply
signed_peer_list std wire priv token peers now =
    let ts = pos (now / second) in
    record {
      is_peer_list = true;
      ver = version;
      peers = peers;
      ts = ts;
      sig = wire.encode_std (std.ed_sign priv (wire.peer_list_payload token ts peers));
      ticket = none;
    }
