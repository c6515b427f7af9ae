-- ===== src/Rendezvous/Poll.antt =====
-- The buddy's side of the registration, internal/role/register.go: `canonicalPeers`,
-- `checkRosterPeer` and the polls of `buddyRegister` on an open connection.
use buddynet.Support.{
  ℕ, ◌*◌, ◌==◌, Bool, true, false, not, ◌&&◌, ◌||◌, Option, none, some, List, [], ◌∷◌, Text, length,
  ltb, if◌then◌else◌,
}
use buddynet.Support.Int.{ℤ, pos, ◌-ℤ◌, leb_ℤ, same_int}
use buddynet.Ticket.{Stdlib, same}
use buddynet.Peer.{Peer, place}
use buddynet.Handshake.{max_cands_per_peer}
use buddynet.Handshake.Names.{max_field_len, valid_field, valid_name}
use buddynet.Handshake.Admission.{Codec, second, in_nanoseconds}
use buddynet.Rendezvous.{Wire, version, Candidates, sort_cands}

-- The first loop: each peer with its candidates sorted.
unfoldable pub sorted_each : List Peer → List Peer
sorted_each [] = []
sorted_each (p ∷ list) = record p { candidates = sort_cands p.candidates } ∷ sorted_each list

unfoldable pub sorted_by_id : List Peer → List Peer
sorted_by_id [] = []
sorted_by_id (p ∷ list) = place p (sorted_by_id list)

unfoldable pub canonical_peers : List Peer → List Peer
canonical_peers list = sorted_by_id (sorted_each list)

-- What one poll comes to. `again` is the next round of the loop.
pub data Poll : Type 0 where
  incompatible : ℤ → Poll
  unsigned : Poll
  invalid_roster : Poll
  joined : Peer → Option (Text × Text) → Poll
  again : Poll

abbrev pub freshness : ℕ
freshness = 60 * second

module _ (std : Stdlib) (codec : Codec) (wire : Wire) where
  unfoldable pub is_endpoint : Text → Bool
  is_endpoint addr = elim (wire.parse_addr_port addr) [
    | none ↦ false
    | some (a, port) ↦ not (port == 0 || wire.is_unspecified a || wire.is_multicast a)
  ]

  unfoldable pub all_endpoints : Candidates → Bool
  all_endpoints [] = true
  all_endpoints (c ∷ cs) = let rest = all_endpoints cs in if is_endpoint c.0 then rest else false

  unfoldable pub check_roster_peer : Peer → Bool
  check_roster_peer p =
      if not (valid_field p.id)
      then false
      else if not (same p.name []) && not (valid_name p.name)
      then false
      else if ltb max_cands_per_peer (length p.candidates)
      then false
      else if not (all_endpoints p.candidates)
      then false
      else not (ltb max_field_len (length p.relay))

  -- A roster with a good signature that is fresh.
  unfoldable pub take_partner : List Peer → Option (Text × Text) → Poll
  take_partner [] ticket = again
  take_partner (p ∷ list) ticket =
      if not (check_roster_peer p) then invalid_roster else joined p ticket

  -- The body of the loop on an answer, at a time in nanoseconds.
  unfoldable pub accept_reply : Text → Text → Text → ℕ → Poll
  accept_reply server_pub rendezvous resp now = elim (wire.read_reply resp) [
    | none ↦ again
    | some r ↦
        if not r.is_peer_list
        then again
        else if not (same_int r.ver version)
        then incompatible r.ver
        else (let peers = canonical_peers r.peers in
            elim (codec.decode_std r.sig) [
              | none ↦ unsigned
              | some sig ↦
                  let d = pos now -ℤ in_nanoseconds r.ts in
                  if not
                    (std.ed_verify server_pub (wire.peer_list_payload rendezvous r.ts peers) sig)
                  then unsigned
                  else if leb_ℤ d (pos freshness) && leb_ℤ (pos 0 -ℤ pos freshness) d
                  then take_partner peers r.ticket
                  else again
            ])
  ]

  -- The rounds until the deadline: what each round trip brings, or `none` if it fails, and when. The
  -- result `again` is the error that the time is up.
  unfoldable pub buddy_register : Text → Text → List (Option Text × ℕ) → Poll
  buddy_register server_pub rendezvous [] = again
  buddy_register server_pub rendezvous ((none, now) ∷ rounds) =
      buddy_register server_pub rendezvous rounds
  buddy_register server_pub rendezvous ((some resp, now) ∷ rounds) =
      elim (accept_reply server_pub rendezvous resp now) [
        | again ↦ buddy_register server_pub rendezvous rounds
        | incompatible v ↦ incompatible v
        | unsigned ↦ unsigned
        | invalid_roster ↦ invalid_roster
        | joined p ticket ↦ joined p ticket
      ]
