-- ===== src/Relay/Wire/Tests.antt =====
-- The datagrams of internal/relay/offer.go at concrete binds.
use buddynet.Support.{
  ◌≡◌, refl, true, false, none, some, Option, [], ◌∷◌, Text, codes, text_dec, ℕ_discrete, arith,
}
use buddynet.Net.{Addr}
use buddynet.Net.Tests.{v4}
use buddynet.Ticket.{sign_bind}
use buddynet.Ticket.Tests.{program, std, key, body, body_sig}
use buddynet.Handshake.Names.{all_bytes}
use buddynet.Relay.Cookie.{marshal_challenge}
use buddynet.Relay.Admission.{Bind}
use buddynet.Relay.Wire.{
  base64url_only, marshal_bind, parse_bind, parse_challenge, BindCred, plain_bind, bind_with,
  first_binding, receive, bind_leg, same_addr,
}
use buddynet.Relay.Wire.Client.{parse_bind-marshal_bind, bind_leg-challenge}

wire_program : Unit {0}
unfolding program all_bytes marshal_challenge base64url_only marshal_bind parse_bind parse_challenge
    bind_with receive bind_leg same_addr text_dec ℕ_discrete
wire_program = tt

abbrev relay : Addr
relay = record { ip = v4; port = 4000 }

-- A bind without a cookie or a ticket, written as its token.
abbrev marshal : Bind → Text
marshal b = b.session_token

abbrev unmarshal : Text → Option Bind
unmarshal s = some (plain_bind s [])

abbrev token : Text
token = codes "AbCdEfGhIjKlMnOpQrStUv"

abbrev cookie : Text
cookie = codes "0123456789abcdef"

-- A datagram of another host acknowledges nothing.
stranger_ignored :
    (bind_leg std
      (λ a. false)
      (parse_bind marshal unmarshal)
      none
      token
      ((relay, marshal_bind marshal unmarshal (plain_bind token [])) ∷ [])
      (first_binding std token)).1
    ≡ false
unfolding wire_program
stranger_ignored = refl

parse_bind-marshal_bind_example :
    parse_bind marshal unmarshal (marshal_bind marshal unmarshal (plain_bind token []))
    ≡ some (plain_bind token [])
unfolding wire_program
parse_bind-marshal_bind_example =
    parse_bind-marshal_bind marshal unmarshal (plain_bind token []) refl (omega arith) refl refl

abbrev cred : BindCred
cred = record { payload = body; sig = body_sig; eph = key }

bind_leg-challenge_example :
    bind_leg std
      (λ a. true)
      (parse_bind marshal unmarshal)
      (some cred)
      token
      ((relay, marshal_challenge cookie)
        ∷ (relay, marshal_bind marshal unmarshal (plain_bind token []))
        ∷ [])
      (first_binding std token)
    ≡ (
      record {
        adopted = std.encode_b64 cookie;
        request = record {
          session_token = token;
          cookie = std.encode_b64 cookie;
          ticket = std.encode_b64 body;
          ticket_sig = std.encode_b64 body_sig;
          bind_sig = std.encode_b64 (sign_bind std key body body_sig cookie);
        };
      },
      true,
    )
unfolding wire_program
bind_leg-challenge_example =
    bind_leg-challenge std (λ a. true) (parse_bind marshal unmarshal) cred token relay cookie
      (marshal_bind marshal unmarshal (plain_bind token [])) (plain_bind token []) []
      (first_binding std token) refl refl (ground arith) refl refl refl
