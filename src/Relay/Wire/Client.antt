-- ===== src/Relay/Wire/Client.antt =====
-- The buddy's side of a relay bind in internal/relay/offer.go.
use buddynet.Support.{
  ◌≤◌, ◌≡◌, ◌≢◌, ◌⊎◌, refl, ◌∙◌, inl, inr, Bool, true, false, Option, none, some, List, [], ◌∷◌,
  ◌++◌, Text, text_dec, ℕ_discrete, length, arith, Bool-cases, Option-cases,
}
use buddynet.Net.{Addr}
use buddynet.Ticket.{Stdlib, same, sign_bind}
use buddynet.Relay.Cookie.{cookie_len, marshal_challenge}
use buddynet.Relay.Admission.{Bind}
use buddynet.Relay.Wire.{
  bind_prefix, max_bind_len, base64url_only, is_bounded, marshal_bind, parse_bind, parse_challenge,
  BindCred, Binding, bind_with, receive, bind_leg,
}

parse_challenge-marshal_challenge :
    (c : Text) → length c ≡ cookie_len → parse_challenge (marshal_challenge c) ≡ some c
unfolding parse_challenge marshal_challenge text_dec ℕ_discrete
parse_challenge-marshal_challenge c h = ground (arith, h)

module _ (json_marshal : Bind → Text) (json_unmarshal : Text → Option Bind) where
  -- A bind whose fields are within the bounds, and whose token is base64url, is read back from its
  -- datagram, if JSON reads back what it writes and the datagram is at most 1,024 bytes.
  pub parse_bind-marshal_bind :
      (b : Bind)
      → json_unmarshal (json_marshal b) ≡ some b
      → length (bind_prefix ++ json_marshal b) ≤ max_bind_len
      → is_bounded b ≡ true
      → base64url_only b.session_token ≡ true
      → parse_bind json_marshal json_unmarshal (marshal_bind json_marshal json_unmarshal b) ≡ some b
  unfolding parse_bind marshal_bind text_dec ℕ_discrete
  parse_bind-marshal_bind b h small bounded alphabet = ground (arith, h, small, bounded, alphabet)

module _ (std : Stdlib) (is_relay : Addr → Bool) (parse : Text → Option Bind)
    (cred : Option BindCred) (token : Text) where
  -- A datagram that acknowledges the leg.
  abbrev Acks : Addr × Text → Type 0
  Acks (src, pkt) =
      (is_relay src ≡ true) × ((b : Bind) × (parse pkt ≡ some b) × (b.session_token ≡ token))

  -- Some datagram acknowledges it.
  abbrev SomeAcks : List (Addr × Text) → Type 0
  SomeAcks [] = ⊥
  SomeAcks (p ∷ pkts) = Acks p ⊎ SomeAcks pkts

  receive-Acks :
      (src : Addr) (pkt : Text) (st : Binding)
      → is_relay src ≡ true
      → (receive std parse cred token pkt st).1 ≡ true
      → Acks (src, pkt)
  unfolding receive
  receive-Acks src pkt st e h = elim (Option-cases (parse_challenge pkt)) [
    | inr (c, f) ↦ absurd (ground (arith, h, f))
    | inl f ↦ elim (Option-cases (parse pkt)) [
      | inl g ↦ absurd (ground (arith, h, f, g))
      | inr (b, g) ↦ elim (text_dec b.session_token token) [
        | yes k ↦ (e, (b, g, k))
        | no k ↦ absurd (ground (arith, h, f, g, k))
      ]
    ]
  ]

  -- A buddy takes its leg for acknowledged only if a datagram from the relay's own address carries a
  -- bind of its token.
  bind_leg-SomeAcks :
      (pkts : List (Addr × Text)) (st : Binding)
      → (bind_leg std is_relay parse cred token pkts st).1 ≡ true
      → SomeAcks pkts
  unfolding bind_leg
  bind_leg-SomeAcks [] st h = absurd (ground (arith, h))
  bind_leg-SomeAcks ((src, pkt) ∷ pkts) st h = elim (Bool-cases (is_relay src)) [
    | inr e ↦ inr (bind_leg-SomeAcks pkts st (rw (e, bind_leg) at h))
    | inl e ↦ elim (Bool-cases (receive std parse cred token pkt st).1) [
      | inl f ↦ inl (receive-Acks src pkt st e f)
      | inr f ↦ inr (
          bind_leg-SomeAcks pkts (receive std parse cred token pkt st).0 (rw (e, f, bind_leg) at h))
    ]
  ]

  goes_on :
      (src : Addr) (pkt : Text) (st st' : Binding) (pkts : List (Addr × Text))
      → is_relay src ≡ true
      → receive std parse cred token pkt st ≡ (st', false)
      → bind_leg std is_relay parse cred token ((src, pkt) ∷ pkts) st
        ≡ bind_leg std is_relay parse cred token pkts st'
  unfolding bind_leg
  goes_on src pkt st st' pkts e h = ground (arith, e, h)

  ends :
      (src : Addr) (pkt : Text) (st st' : Binding) (pkts : List (Addr × Text))
      → is_relay src ≡ true
      → receive std parse cred token pkt st ≡ (st', true)
      → bind_leg std is_relay parse cred token ((src, pkt) ∷ pkts) st ≡ (st', true)
  unfolding bind_leg
  ends src pkt st st' pkts e h = ground (arith, e, h)

  -- A challenge and an acknowledgement complete the leg with the bind that `bind_with` makes.
  bind_leg-bind_with :
      (relay : Addr) (c ack : Text) (b : Bind) (rest : List (Addr × Text)) (st : Binding)
      → is_relay relay ≡ true
      → length c ≡ cookie_len
      → std.encode_b64 c ≢ st.adopted
      → parse_challenge ack ≡ none
      → parse ack ≡ some b
      → b.session_token ≡ token
      → bind_leg std is_relay parse cred token
          ((relay, marshal_challenge c) ∷ (relay, ack) ∷ rest)
          st
        ≡ (
          record {
            adopted = std.encode_b64 c;
            request = bind_with std cred token (std.encode_b64 c) c;
          },
          true,
        )
  unfolding receive
  bind_leg-bind_with relay c ack b rest st e size fresh other g k =
      let st' : Binding = record {
        adopted = std.encode_b64 c;
        request = bind_with std cred token (std.encode_b64 c) c;
      } in
      let challenge = parse_challenge-marshal_challenge c size in
      let adopts : same (std.encode_b64 c) st.adopted ≡ false = ground (arith, fresh) in
      let acks : same b.session_token token ≡ true = ground (arith, k) in
      let first : receive std parse cred token (marshal_challenge c) st ≡ (st', false) =
        rw (challenge, adopts, receive) refl in
      let second : receive std parse cred token ack st' ≡ (st', true) =
        rw (other, g, acks, receive) refl in
      goes_on relay (marshal_challenge c) st st' ((relay, ack) ∷ rest) e first
      ∙ ends relay ack st' st' rest e second

-- After a challenge with a cookie that is new to it, a buddy with a ticket has adopted that cookie
-- and asks with a bind that carries its token, the cookie, the ticket with the server's signature,
-- and a proof by its ephemeral key over the ticket and that cookie; the next bind of its token from
-- the relay completes the leg. The ack is no challenge.
pub bind_leg-challenge :
    (std : Stdlib) (is_relay : Addr → Bool) (parse : Text → Option Bind) (k : BindCred)
    (token : Text) (relay : Addr) (c ack : Text) (b : Bind) (rest : List (Addr × Text))
    (st : Binding)
    → is_relay relay ≡ true
    → length c ≡ cookie_len
    → std.encode_b64 c ≢ st.adopted
    → parse_challenge ack ≡ none
    → parse ack ≡ some b
    → b.session_token ≡ token
    → bind_leg std is_relay parse
        (some k)
        token
        ((relay, marshal_challenge c) ∷ (relay, ack) ∷ rest)
        st
      ≡ (
        record {
          adopted = std.encode_b64 c;
          request = record {
            session_token = token;
            cookie = std.encode_b64 c;
            ticket = std.encode_b64 k.payload;
            ticket_sig = std.encode_b64 k.sig;
            bind_sig = std.encode_b64 (sign_bind std k.eph k.payload k.sig c);
          };
        },
        true,
      )
unfolding bind_with
bind_leg-challenge std is_relay parse k token relay c ack b rest st e size fresh other g
      same_token =
    bind_leg-bind_with std is_relay parse (some k) token relay c ack b rest st e size fresh other g
      same_token
