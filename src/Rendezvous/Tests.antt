-- ===== src/Rendezvous/Tests.antt =====
-- The exchange of a buddy and the handshake server at concrete registrations.
use buddynet.Support.{
  ℕ, ◌+◌, ◌≡◌, ◌⊎◌, refl, false, none, some, In, Option, [], ◌∷◌, Text, codes, arith, if◌then◌else◌,
  not,
}
use buddynet.Net.Tests.{texts, v4}
use buddynet.Ticket.Tests.{std, key, id, key_pair}
use buddynet.RateLimit.{new, allow, take, charge, admit_new, allow_global, full, prune}
use buddynet.Net.{from_ip, addr_from_slice, unmap, from_netip_addr, cidr_allowed, any_contains}
use buddynet.Peer.{place}
use buddynet.Handshake.{HsPeer, Message}
use buddynet.Handshake.Tests.{program, codec, alice, registration, now, start, other_key, token}
use buddynet.Rendezvous.{
  Reply, Wire, place_cand, sort_cands, values_of, candidates, as_protocol_peer, reply_incompatible,
  signed_peer_list,
}
use buddynet.Rendezvous.Serve.{
  parse_register, relay_advert_for, Config, State, Request, reply, Draws, pair_any, paired_reply,
  answer_pairing, serve_register, handle_control_req,
}
use buddynet.Rendezvous.Gates.{Passes, IsRefusal, handle_control_req-Passes}
use buddynet.Rendezvous.Poll.{
  sorted_each, sorted_by_id, canonical_peers, is_endpoint, all_endpoints, check_roster_peer,
  take_partner, accept_reply, buddy_register, joined, invalid_roster,
}
use buddynet.Rendezvous.Agreement.{accept_reply-answer_pairing}
use buddynet.Rendezvous.Vouched.{Vouches, buddy_register-Vouches}

exchange_program : Unit {0}
unfolding program new allow take charge admit_new allow_global full prune from_ip addr_from_slice
    unmap from_netip_addr cidr_allowed any_contains place place_cand sort_cands values_of candidates
    as_protocol_peer reply_incompatible signed_peer_list parse_register relay_advert_for pair_any
    paired_reply answer_pairing serve_register handle_control_req sorted_each sorted_by_id
    canonical_peers is_endpoint all_endpoints check_roster_peer take_partner accept_reply
    buddy_register
exchange_program = tt

abbrev tag : Text → Text
tag s = s

-- A registration as it travels: the token is sealed.
abbrev sealed : Text → Text → Message
sealed name pubkey = record (registration name pubkey) { token = []; token_enc = token }

-- A wire on which one registration and the answer `r` travel.
abbrev wire_of : Message → Reply → Wire
wire_of m r = record {
  encode_std = λ s. s;
  read_register = λ raw. some m;
  marshal_reply = λ reply. some (codes "reply");
  read_reply = λ raw. some r;
  peer_list_payload = λ t ts peers. t;
  parse_addr_port = λ s. some (v4, 40000);
  is_unspecified = λ a. false;
  is_multicast = λ a. false;
}

abbrev cfg : Config
cfg = record { priv = key; adv = record { endpoint = codes "relay:1"; rid = id }; prefixes = [] }

abbrev draws : Draws
draws = record { iteration = []; sid = some id; nonce = some id; now = now }

abbrev state : State
state = record { registry = start; authz = none; limiter = new 100 10 8 now }

abbrev request : Request
request = record { remote = some alice; payload = codes "register"; client_key = other_key }

abbrev wire : Wire
wire = wire_of (sealed (codes "b") other_key) reply_incompatible

handle_control_req-Passes_example :
    let out = handle_control_req std codec texts wire tag tag cfg state request draws in
    Passes std codec texts wire tag tag cfg state request draws
    ⊎ ((out.0.registry ≡ state.registry) × IsRefusal std codec texts wire tag tag out.1)
handle_control_req-Passes_example =
    handle_control_req-Passes std codec texts wire tag tag cfg state request draws

first_is_parked :
    (handle_control_req std codec texts wire tag tag cfg state request draws).1
    ≡ reply (codes "reply") ∷ []
unfolding exchange_program
first_is_parked = refl

-- The buddy that waited, and the roster that names it to the second.
abbrev waiting : HsPeer
waiting = record {
  id = codes "a";
  pubkey = key;
  virtual_ip = codes "ip:10";
  name = codes "web-01";
  cands = (codes "v4", record { addr = codes "v4"; v6 = false }) ∷ [];
  seen = now;
}

abbrev second_buddy : Message
second_buddy = registration (codes "b") other_key

abbrev roster : Reply
roster = (paired_reply std codec texts wire tag tag cfg state second_buddy waiting draws).1

abbrev paired_wire : Wire
paired_wire = wire_of (sealed (codes "b") other_key) roster

accept_reply-answer_pairing_example :
    let p = as_protocol_peer waiting cfg.adv.endpoint in
    let list =
      (paired_reply std codec texts paired_wire tag tag cfg state second_buddy waiting draws).1 in
    accept_reply std codec paired_wire key second_buddy.token (codes "reply") (now + 5) ≡ (
      if not (check_roster_peer std codec paired_wire p)
      then invalid_roster
      else joined p list.ticket)
unfolding exchange_program
accept_reply-answer_pairing_example =
    accept_reply-answer_pairing std codec texts paired_wire tag tag cfg state second_buddy waiting
      draws key (codes "reply") (now + 5) key_pair (λ sig. refl) (λ h. refl) refl (omega arith)
      (omega arith)

buddy_register-Vouches_example :
    (resp : Text) × (at : ℕ) × In {A = Option Text × ℕ}
      (some resp, at)
      ((none, now) ∷ (some (codes "reply"), now + 5) ∷ [])
    × Vouches std codec paired_wire key token resp at
        (as_protocol_peer waiting cfg.adv.endpoint)
        roster.ticket
unfolding exchange_program
buddy_register-Vouches_example =
    buddy_register-Vouches std codec paired_wire key token
      ((none, now) ∷ (some (codes "reply"), now + 5) ∷ [])
      (as_protocol_peer waiting cfg.adv.endpoint) roster.ticket refl
