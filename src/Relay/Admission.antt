-- ===== src/Relay/Admission.antt =====
-- From a bind datagram to a session: `bind` of internal/relay/server.go, and `admitTicketBind`
-- and `verifyTicketBind` of internal/relay/tickets.go. The verification runs off the read loop:
-- an admitted bind is returned as work, which `verify_ticket_bind` does in a later step.
pub mod Checks
pub mod Bound
pub mod Runs
use buddynet.Support.{
  ℕ, ◌+◌, ◌-◌, ◌*◌, ◌/◌, ◌%◌, ◌==◌, Bool, true, false, not, ◌&&◌, ◌||◌, Option, none, some, List,
  [], ◌∷◌, ◌++◌, Text, codes, text_key, lookup, length, take, ltb, leb, if◌then◌else◌,
}
use buddynet.Support.Int.{pos}
use buddynet.RateLimit.{allow, allow_global}
use buddynet.Net.{Addr, Texts, from_ip, cidr_allowed, mapped_prefix}
use buddynet.Ticket.{
  Stdlib, Payload, ok, err, signature_size, verify, parse, check_window, check_relay, eph_pub,
  verify_bind, malformed, proof, relay, signature, same,
}
use buddynet.Relay.{
  Session, Server, Event, Reply, Refusal, of_ticket, no_ticket, encoding, sid_claim, budget,
  count_rejected, second, reject_ticket, reject_window,
}
use buddynet.Relay.Cookie.{valid_cookie, fresh_cookie, marshal_challenge}
use buddynet.Relay.Network.{bind_network_mode}
use buddynet.Relay.Ticketed.{bind_ticketed}

-- `Bind` of internal/relay/offer.go.
pub record Bind : Type 0 where
  pub session_token : Text
  pub cookie : Text
  pub ticket : Text
  pub ticket_sig : Text
  pub bind_sig : Text

-- An admitted bind, to be verified off the read loop.
pub record Work : Type 0 where
  pub bind : Bind
  pub src : Addr
  pub acct : Text
  pub cookie : Text

abbrev pub max_sig_in_flight : ℕ
max_sig_in_flight = 32

unfoldable pub ticket_mode : Server → Bool
ticket_mode s = not (length s.server_keys == 0)

unfoldable pub half_open : Server → Text → Bool
half_open s sid = elim (lookup sid s.sessions) [ none ↦ false | some ses ↦ length ses.legs == 1 ]

-- What a handler leaves: the state, what it sent and logged, and the work that it started.
abbrev pub Outcome : Type 0
Outcome = Server × List Event × Option Work

-- A refusal starts no work.
unfoldable pub turn_away : Server → Refusal → Text → Addr → ℕ → Outcome
turn_away s reason sid src now =
    let (s', lines) = reject_ticket s reason sid [] (some src) now in (s', lines, none)

unfoldable pub spend_global : Server → ℕ → Server × Bool
spend_global s now =
    let (rl, granted) = allow_global s.sig_rl now in (record s { sig_rl = rl }, granted)

-- The budgets: the reserve for a session with one leg, else the global one.
unfoldable pub spend : Server → Text → ℕ → Server × Bool
spend s sid now =
    if half_open s sid
    then (let (rl, granted) = allow s.reserve_rl sid now in
        let s' = record s { reserve_rl = rl } in
        if granted then (s', true) else spend_global s' now)
    else spend_global s now

unfoldable pub admit_ticket_bind : Server → Bind → Addr → Text → Text → ℕ → Outcome
admit_ticket_bind s b src acct cookie now =
    if same b.ticket [] || same b.ticket_sig [] || same b.bind_sig []
    then turn_away s no_ticket b.session_token src now
    else (let (s₁, granted) = spend s b.session_token now in
        if not granted
        then turn_away (count_rejected s₁) budget b.session_token src now
        else if leb max_sig_in_flight s₁.in_flight
        then turn_away (count_rejected s₁) Refusal.in_flight b.session_token src now
        else (
          record s₁ { in_flight = s₁.in_flight + 1 },
          [],
          some (record { bind = b; src = src; acct = acct; cookie = cookie }),
        ))

-- The steps after the proof of possession's input is known: the fields of the ticket.
unfoldable pub verify_fields :
    Texts → Stdlib → Server → Work → Payload → Text → Text → Text → ℕ → Server × List Event
verify_fields texts std s w p payload sig bind_sig now =
    elim (check_window p (pos (now / second))) [
      | err r ↦ reject_window s p now
      | ok _ ↦ elim (check_relay p s.relay_id) [
        | err r ↦ reject_ticket s (of_ticket relay) p.sid p.leg (some w.src) now
        | ok _ ↦
            if not (same w.bind.session_token p.sid)
            then reject_ticket s sid_claim p.sid p.leg (some w.src) now
            else elim (eph_pub std p) [
              | none ↦ reject_ticket s (of_ticket malformed) p.sid p.leg (some w.src) now
              | some epk ↦ elim (verify_bind std epk payload sig w.cookie bind_sig) [
                | err r ↦ reject_ticket s (of_ticket proof) p.sid p.leg (some w.src) now
                | ok _ ↦ bind_ticketed texts s p w.src w.acct now
              ]
            ]
      ]
    ]

-- The first Ed25519 check, counted, and the parser.
unfoldable pub verify_decoded :
    Texts → Stdlib → Server → Work → Text → Text → Text → ℕ → Server × List Event
verify_decoded texts std s w payload sig bind_sig now =
    let counted = record s { stat_verify = s.stat_verify + 1 } in
    let deny = λ (r : Refusal). reject_ticket counted r w.bind.session_token [] (some w.src) now in
    if not (verify std s.server_keys payload sig)
    then deny (of_ticket signature)
    else elim (parse std payload) [
      | err r ↦ deny (of_ticket r)
      | ok p ↦ verify_fields texts std counted w p payload sig bind_sig now
    ]

-- A signature field: base64url of 64 bytes.
unfoldable pub decode_sig : Stdlib → Text → Option Text
decode_sig std b64 = elim (std.decode_b64 b64) [
  | none ↦ none
  | some raw ↦ if length raw == signature_size then some raw else none
]

unfoldable pub verify_ticket_bind : Texts → Stdlib → Server → Work → ℕ → Server × List Event
verify_ticket_bind texts std s w now =
    let deny = reject_ticket s encoding w.bind.session_token [] (some w.src) now in
    elim (std.decode_b64 w.bind.ticket) [
      | none ↦ deny
      | some payload ↦ elim (decode_sig std w.bind.ticket_sig) [
        | none ↦ deny
        | some sig ↦ elim (decode_sig std w.bind.bind_sig) [
          | none ↦ deny
          | some bind_sig ↦ verify_decoded texts std s w payload sig bind_sig now
        ]
      ]
    ]

-- The goroutine of a work: the verification, and its slot given back.
unfoldable pub do_work : Texts → Stdlib → Server → Work → ℕ → Server × List Event
do_work texts std s w now =
    let (s', events) = verify_ticket_bind texts std s w now in
    (record s' { in_flight = s'.in_flight - 1 }, events)

-- A challenge is sent only if it is shorter than the request.
unfoldable pub answer : Text → Addr → ℕ → List Event
answer chal src req_len =
    if ltb (length chal) req_len then Event.send src (Reply.challenge chal) ∷ [] else []

-- `bind`, in its fixed order: network, rate, cookie, and only then the modes.
unfoldable pub bind : Texts → Stdlib → (Text → Text → Text) → Server → Bind → Addr → ℕ → ℕ → Outcome
bind texts std hmac s b src req_len now =
    if not (cidr_allowed texts s.allowed src.ip)
    then (count_rejected s, [], none)
    else (let acct = from_ip texts src.ip in
        let (rl, granted) = allow s.bind_rl acct now in
        let s₁ = record s { bind_rl = rl } in
        if not granted
        then (count_rejected s₁, [], none)
        else elim (valid_cookie hmac std s₁ b.cookie src now) [
          | none ↦ (
            record s₁ { stat_challenged = s₁.stat_challenged + 1 },
            answer (marshal_challenge (fresh_cookie hmac s₁ src now)) src req_len,
            none,
          )
          | some cookie ↦
              if ticket_mode s₁
              then admit_ticket_bind s₁ b src acct cookie now
              else (let (s', events) = bind_network_mode texts s₁ b.session_token src acct now in
                  (s', events, none))
        ])
