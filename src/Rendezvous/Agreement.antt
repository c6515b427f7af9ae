-- ===== src/Rendezvous/Agreement.antt =====
-- The PEER_LIST of internal/role/handshake.go as internal/role/register.go takes it: the server and
-- the buddy agree on the bytes that are signed.
use buddynet.Support.{
  ℕ, ◌+◌, ◌*◌, ◌/◌, ◌≤◌, ◌≡◌, refl, ap, ◌∙◌, Bool, true, false, not, Option, some, List, [], ◌∷◌,
  Text, arith, Bool-cases, Option-cases, inl, inr, if◌then◌else◌,
}
use buddynet.Support.Int.{pos, ◌-ℤ◌, leb_ℤ}
use buddynet.Net.{Texts}
use buddynet.Ticket.{Stdlib}
use buddynet.Ticket.Proofs.{IsKeyPair}
use buddynet.Peer.{Peer, precedes, place}
use buddynet.Handshake.{HsPeer, Message}
use buddynet.Handshake.Admission.{Codec, second, in_nanoseconds}
use buddynet.Rendezvous.{
  Wire, Candidates, place_cand, sort_cands, values_of, candidates, as_protocol_peer,
  signed_peer_list, version,
}
use buddynet.Rendezvous.Serve.{Config, State, Draws, reply, paired_reply, answer_pairing}
use buddynet.Rendezvous.Poll.{
  sorted_each, sorted_by_id, canonical_peers, invalid_roster, joined, freshness, check_roster_peer,
  take_partner, accept_reply,
}

precedes_asym : (s t : Text) → precedes s t ≡ true → precedes t s ≡ false
unfolding precedes
precedes_asym [] [] h = refl
precedes_asym [] (d ∷ t) h = refl
precedes_asym (c ∷ s) [] h = ground arith
precedes_asym (c ∷ s) (d ∷ t) h = ground (arith, precedes_asym s t)

-- The first of a list does not come before the candidate.
abbrev Leads : Text × Bool → Candidates → Type 0
Leads c [] = Unit
Leads c (d ∷ cs) = precedes d.0 c.0 ≡ false

abbrev IsSorted : Candidates → Type 0
IsSorted [] = Unit
IsSorted (c ∷ cs) = Leads c cs × IsSorted cs

place_cand-Leads :
    (c d : Text × Bool) (cs : Candidates)
    → precedes c.0 d.0 ≡ false
    → Leads d cs
    → Leads d (place_cand c cs)
unfolding place_cand
place_cand-Leads c d [] h l = h
place_cand-Leads c d (e ∷ cs) h l = ground (arith, h, l)

place_cand-IsSorted : (c : Text × Bool) (cs : Candidates) → IsSorted cs → IsSorted (place_cand c cs)
unfolding place_cand
place_cand-IsSorted c [] h = (tt, tt)
place_cand-IsSorted c (d ∷ cs) (l, h) = elim (Bool-cases (precedes d.0 c.0)) [
  | inl e ↦
      rw (e, place_cand)
        (place_cand-Leads c d cs (precedes_asym d.0 c.0 e) l, place_cand-IsSorted c cs h)
  | inr e ↦ rw (e, place_cand) (e, (l, h))
]

sort_cands-IsSorted : (cs : Candidates) → IsSorted (sort_cands cs)
unfolding sort_cands
sort_cands-IsSorted [] = tt
sort_cands-IsSorted (c ∷ cs) = place_cand-IsSorted c (sort_cands cs) (sort_cands-IsSorted cs)

place_cand_first : (c : Text × Bool) (cs : Candidates) → Leads c cs → place_cand c cs ≡ c ∷ cs
unfolding place_cand
place_cand_first c [] l = refl
place_cand_first c (d ∷ cs) l = rw l refl

sort_cands_sorted : (cs : Candidates) → IsSorted cs → sort_cands cs ≡ cs
unfolding sort_cands
sort_cands_sorted [] h = refl
sort_cands_sorted (c ∷ cs) (l, h) = rw (sort_cands_sorted cs h) (place_cand_first c cs l)

canonical_peers_one :
    (p : HsPeer) (relay : Text)
    → canonical_peers (as_protocol_peer p relay ∷ []) ≡ as_protocol_peer p relay ∷ []
unfolding canonical_peers sorted_each sorted_by_id place as_protocol_peer candidates
canonical_peers_one p relay =
    rw
      (sort_cands_sorted (sort_cands (values_of p.cands)) (sort_cands-IsSorted (values_of p.cands)))
      refl

is_fresh :
    (at t : ℕ)
    → at ≤ t * second + freshness
    → t * second ≤ at + freshness
    → (leb_ℤ (pos at -ℤ in_nanoseconds (pos t)) (pos freshness) ≡ true)
      × (leb_ℤ (pos 0 -ℤ pos freshness) (pos at -ℤ in_nanoseconds (pos t)) ≡ true)
unfolding ◌-ℤ◌
is_fresh at t late early = (ground arith, ground arith)

module _ (std : Stdlib) (codec : Codec) (texts : Texts) (wire : Wire) where
  accept_signed :
      (server_pub token b sig raw : Text) (at t : ℕ) (peers : List Peer)
      (ticket : Option (Text × Text))
      → wire.read_reply b
        ≡ some (record {
          is_peer_list = true;
          ver = version;
          peers = peers;
          ts = pos t;
          sig = sig;
          ticket = ticket;
        })
      → canonical_peers peers ≡ peers
      → codec.decode_std sig ≡ some raw
      → std.ed_verify server_pub (wire.peer_list_payload token (pos t) peers) raw ≡ true
      → at ≤ t * second + freshness
      → t * second ≤ at + freshness
      → accept_reply std codec wire server_pub token b at ≡ take_partner std codec wire peers ticket
  unfolding accept_reply
  accept_signed server_pub token b sig raw at t peers ticket reads canonical decodes verifies late
        early =
      let (soon, not_ahead) = is_fresh at t late early in
      rw (reads, accept_reply, decodes, canonical, verifies, soon, not_ahead) refl

  -- The two parties speak of the same session: a buddy that reads the server's roster of a partner
  -- within a minute of its making finds the signature good and takes the partner with the ticket
  -- that came along, if the fields of the partner pass its checks, and else refuses the roster.
  pub accept_reply-answer_pairing :
      (short_hash log_tag : Text → Text) (cfg : Config) (s : State) (m : Message) (partner : HsPeer)
      (d : Draws) (server_pub b : Text) (at : ℕ)
      → let list = (paired_reply std codec texts wire short_hash log_tag cfg s m partner d).1 in
        IsKeyPair std cfg.priv server_pub
        → ((sig : Text) → codec.decode_std (wire.encode_std sig) ≡ some sig)
        → (wire.marshal_reply list ≡ some b → wire.read_reply b ≡ some list)
        → (answer_pairing std codec texts wire short_hash log_tag cfg s m (some partner) d).1
          ≡ reply b ∷ []
        → at ≤ d.now / second * second + freshness
        → d.now / second * second ≤ at + freshness
        → let p = as_protocol_peer partner cfg.adv.endpoint in
          accept_reply std codec wire server_pub m.token b at ≡ (
            if not (check_roster_peer std codec wire p)
            then invalid_roster
            else joined p list.ticket)
  unfolding answer_pairing paired_reply signed_peer_list take_partner
  accept_reply-answer_pairing short_hash log_tag cfg s m partner d server_pub b at pair encodes
        reads sent late early =
      let p = as_protocol_peer partner cfg.adv.endpoint in
      let list = (paired_reply std codec texts wire short_hash log_tag cfg s m partner d).1 in
      let payload = wire.peer_list_payload m.token (pos (d.now / second)) (p ∷ []) in
      elim (Option-cases (wire.marshal_reply list)) [
        | inl e ↦ absurd (ground (arith, e, sent))
        | inr (b', e) ↦
            let same_bytes : b' ≡ b = ground (arith, e, sent) in
            accept_signed server_pub m.token b list.sig (std.ed_sign cfg.priv payload) at
              (d.now / second) (p ∷ []) list.ticket (reads (e ∙ ap some same_bytes))
              (canonical_peers_one partner cfg.adv.endpoint)
              (encodes (std.ed_sign cfg.priv payload)) (pair.verifies payload) late early
      ]
