-- ===== src/Rendezvous/Vouched.antt =====
-- Whom `buddyRegister` of internal/role/register.go takes for its partner.
use buddynet.Support.{
  ℕ, ◌≡◌, refl, ◌∙◌, true, Option, none, some, List, [], ◌∷◌, Text, In, inl, inr, drop, arith,
  Bool-cases, Option-cases,
}
use buddynet.Support.Int.{pos, ◌-ℤ◌, leb_ℤ, same_int}
use buddynet.Ticket.{Stdlib}
use buddynet.Peer.{Peer}
use buddynet.Handshake.Admission.{Codec, in_nanoseconds}
use buddynet.Rendezvous.{Reply, Wire, version}
use buddynet.Rendezvous.Poll.{
  Poll, incompatible, unsigned, invalid_roster, joined, again, canonical_peers, freshness,
  check_roster_peer, take_partner, accept_reply, buddy_register,
}

module _ (std : Stdlib) (codec : Codec) (wire : Wire) (server_pub rendezvous : Text) where
  -- An answer, at a time, that vouches for a partner and its ticket.
  pub record Vouches (resp : Text) (at : ℕ) (p : Peer) (ticket : Option (Text × Text))
      : Type 0 where
    pub answer : Reply
    pub sig : Text
    pub reads : wire.read_reply resp ≡ some answer
    pub speaks : same_int answer.ver version ≡ true
    pub decodes : codec.decode_std answer.sig ≡ some sig
    pub verifies :
        std.ed_verify server_pub
          (wire.peer_list_payload rendezvous answer.ts (canonical_peers answer.peers))
          sig
        ≡ true
    pub recent : leb_ℤ (pos at -ℤ in_nanoseconds answer.ts) (pos freshness) ≡ true
    pub not_ahead : leb_ℤ (pos 0 -ℤ pos freshness) (pos at -ℤ in_nanoseconds answer.ts) ≡ true
    pub names : canonical_peers answer.peers ≡ p ∷ drop 1 (canonical_peers answer.peers)
    pub sane : check_roster_peer std codec wire p ≡ true
    pub carries : answer.ticket ≡ ticket

  take_partner-joined :
      (list : List Peer) (given ticket : Option (Text × Text)) (p : Peer)
      → take_partner std codec wire list given ≡ joined p ticket
      → (list ≡ p ∷ drop 1 list) × (check_roster_peer std codec wire p ≡ true) × (given ≡ ticket)
  unfolding take_partner
  take_partner-joined [] given ticket p h = cc
  take_partner-joined (q ∷ list) given ticket p h =
      elim (Bool-cases (check_roster_peer std codec wire q)) [
        | inl c ↦ ground (arith, c, h)
        | inr c ↦ absurd (ground (arith, c, h))
      ]

  accept_reply-Vouches :
      (resp : Text) (at : ℕ) (p : Peer) (ticket : Option (Text × Text))
      → accept_reply std codec wire server_pub rendezvous resp at ≡ joined p ticket
      → Vouches resp at p ticket
  unfolding accept_reply
  accept_reply-Vouches resp at p ticket h = elim (Option-cases (wire.read_reply resp)) [
    | inl e ↦ absurd (ground (arith, e, h))
    | inr (r, e) ↦ elim (Option-cases (codec.decode_std r.sig)) [
      | inl f ↦ absurd (ground (arith, e, f, h))
      | inr (sig, f) ↦
          let taken : take_partner std codec wire (canonical_peers r.peers) r.ticket
              ≡ joined p ticket =
            ground (arith, e, f, h) in
          let (names, sane, carries) =
            take_partner-joined (canonical_peers r.peers) r.ticket ticket p taken in
          record {
            answer = r;
            sig = sig;
            reads = e;
            speaks = ground (arith, e, f, h);
            decodes = f;
            verifies = ground (arith, e, f, h);
            recent = ground (arith, e, f, h);
            not_ahead = ground (arith, e, f, h);
            names = names;
            sane = sane;
            carries = carries;
          }
    ]
  ]

  -- Whatever the server or anyone on the path sends, and however often, a buddy takes a partner only
  -- from one answer that the pinned server key signed for this rendezvous, within a minute of the
  -- buddy's clock, and whose first peer passes the checks of its fields; the ticket is that answer's.
  pub buddy_register-Vouches :
      (rounds : List (Option Text × ℕ)) (p : Peer) (ticket : Option (Text × Text))
      → buddy_register std codec wire server_pub rendezvous rounds ≡ joined p ticket
      → (resp : Text) × (at : ℕ) × In (some resp, at) rounds × Vouches resp at p ticket
  unfolding buddy_register
  buddy_register-Vouches [] p ticket h = cc
  buddy_register-Vouches ((none, now) ∷ rounds) p ticket h =
      let (resp, at, m, v) = buddy_register-Vouches rounds p ticket h in (resp, at, inr m, v)
  buddy_register-Vouches ((some resp, now) ∷ rounds) p ticket h =
      go (accept_reply std codec wire server_pub rendezvous resp now) refl h
        (λ later. buddy_register-Vouches rounds p ticket later)
    where
      go :
          (o : Poll)
          → accept_reply std codec wire server_pub rendezvous resp now ≡ o
          → (elim o [
            | again ↦ buddy_register std codec wire server_pub rendezvous rounds
            | incompatible v ↦ incompatible v
            | unsigned ↦ unsigned
            | invalid_roster ↦ invalid_roster
            | joined p ticket ↦ joined p ticket
          ])
            ≡ joined p ticket
          → (buddy_register std codec wire server_pub rendezvous rounds ≡ joined p ticket
              → (r : Text) × (at : ℕ) × In (some r, at) rounds × Vouches r at p ticket)
          → (r : Text) × (at : ℕ) × In (some r, at) ((some resp, now) ∷ rounds)
            × Vouches r at p ticket
      go again e h later = let (r, at, m, v) = later h in (r, at, inr m, v)
      go (incompatible v) e h later = cc
      go unsigned e h later = cc
      go invalid_roster e h later = cc
      go (joined q t) e h later =
          (resp, now, inl refl, accept_reply-Vouches resp now p ticket (e ∙ h))
