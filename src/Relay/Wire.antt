-- ===== src/Relay/Wire.antt =====
-- internal/relay/offer.go: the datagrams of a bind, and `BindLeg`, the buddy's side of it; the chains
-- of internal/relay/fallback.go. JSON, base64url and net.IP.Equal are parameters.
pub mod Client
mod Tests
use buddynet.Support.{
  ℕ, ◌+◌, ◌==◌, Bool, true, false, not, ◌&&◌, ◌||◌, Option, none, some, List, [], ◌∷◌, ◌++◌, Text,
  codes, length, take, drop, ltb, if◌then◌else◌,
}
use buddynet.Net.{Addr}
use buddynet.Ticket.{Stdlib, same, sign_bind}
use buddynet.Handshake.Names.{max_field_len, is_base64url, all_bytes}
use buddynet.Relay.Cookie.{challenge_prefix, cookie_len}
use buddynet.Relay.Admission.{Bind}

abbrev pub bind_prefix : Text
bind_prefix = codes "BNRELAY1"

abbrev pub min_session_token_len : ℕ
min_session_token_len = 16

abbrev pub max_bind_len : ℕ
max_bind_len = 1_024

abbrev pub max_ticket_b64 : ℕ
max_ticket_b64 = 700

abbrev pub max_sig_b64 : ℕ
max_sig_b64 = 96

-- `base64urlOnly`
unfoldable pub base64url_only : Text → Bool
unfolding all_bytes
base64url_only s = all_bytes is_base64url s

abbrev pub is_bounded : Bind → Bool
is_bounded b =
    not (ltb (length b.session_token) min_session_token_len)
    && not (ltb max_field_len (length b.session_token))
    && not (ltb max_field_len (length b.cookie))
    && not (ltb max_ticket_b64 (length b.ticket))
    && not (ltb max_sig_b64 (length b.ticket_sig))
    && not (ltb max_sig_b64 (length b.bind_sig))

module _ (json_marshal : Bind → Text) (json_unmarshal : Text → Option Bind) where
  unfoldable pub marshal_bind : Bind → Text
  marshal_bind b = bind_prefix ++ json_marshal b

  unfoldable pub parse_bind : Text → Option Bind
  unfolding base64url_only
  parse_bind pkt =
      if ltb (length pkt) (length bind_prefix)
        || ltb max_bind_len (length pkt)
        || not (same (take (length bind_prefix) pkt) bind_prefix)
      then none
      else elim (json_unmarshal (drop (length bind_prefix) pkt)) [
        | none ↦ none
        | some b ↦ if is_bounded b && base64url_only b.session_token then some b else none
      ]

unfoldable pub parse_challenge : Text → Option Text
parse_challenge pkt =
    if not (length pkt == length challenge_prefix + cookie_len)
      || not (same (take (length challenge_prefix) pkt) challenge_prefix)
    then none
    else some (drop (length challenge_prefix) pkt)

-- What a bind presents to a relay with tickets.
pub record BindCred : Type 0 where
  pub payload : Text
  pub sig : Text
  pub eph : Text

abbrev pub plain_bind : Text → Text → Bind
plain_bind token cookie = record {
  session_token = token;
  cookie = cookie;
  ticket = [];
  ticket_sig = [];
  bind_sig = [];
}

-- The state of `BindLeg`: the cookie it has adopted, and the request it repeats.
pub record Binding : Type 0 where
  pub adopted : Text
  pub request : Bind

module _ (std : Stdlib) where
  unfoldable pub bind_with : Option BindCred → Text → Text → Text → Bind
  bind_with none token cookie_b64 cookie = plain_bind token cookie_b64
  bind_with (some c) token cookie_b64 cookie = record {
    session_token = token;
    cookie = cookie_b64;
    ticket = std.encode_b64 c.payload;
    ticket_sig = std.encode_b64 c.sig;
    bind_sig = std.encode_b64 (sign_bind std c.eph c.payload c.sig cookie);
  }

  -- The first bind carries no ticket.
  abbrev pub first_binding : Text → Binding
  first_binding token = record { adopted = []; request = plain_bind token [] }

  -- A datagram from the relay: the state, and whether the leg is acknowledged.
  unfoldable pub receive :
      (Text → Option Bind) → Option BindCred → Text → Text → Binding → Binding × Bool
  unfolding parse_challenge bind_with
  receive parse cred token pkt st = elim (parse_challenge pkt) [
    | some c ↦
        let next = std.encode_b64 c in
        if not (same next st.adopted)
        then (record { adopted = next; request = bind_with cred token next c }, false)
        else (st, false)
    | none ↦ elim (parse pkt) [ none ↦ (st, false) | some b ↦ (st, same b.session_token token) ]
  ]

  -- The datagrams from other addresses are passed over; the deadline is the end of the list.
  unfoldable pub bind_leg :
      (Addr → Bool)
      → (Text → Option Bind)
      → Option BindCred
      → Text
      → List (Addr × Text)
      → Binding
      → Binding × Bool
  unfolding receive
  bind_leg is_relay parse cred token [] st = (st, false)
  bind_leg is_relay parse cred token ((src, pkt) ∷ pkts) st = elim (is_relay src) [
    | false ↦ bind_leg is_relay parse cred token pkts st
    | true ↦
        let (st', acked) = receive parse cred token pkt st in
        elim acked [ true ↦ (st', true) | false ↦ bind_leg is_relay parse cred token pkts st' ]
  ]

unfoldable pub same_addr : (Text → Text → Bool) → Addr → Addr → Bool
same_addr ip_equal a b = a.port == b.port && ip_equal a.ip b.ip
