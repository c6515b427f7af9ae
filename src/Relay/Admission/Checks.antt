-- ===== src/Relay/Admission/Checks.antt =====
-- What the order of the checks of internal/relay/server.go and tickets.go establishes.
use buddynet.Support.{
  ℕ, ◌+◌, ◌<◌, ◌≡◌, ◌⊎◌, inl, inr, refl, true, Option, none, some, [], Text, length, ltb, ltb→lt,
  arith, Bool-cases, Option-cases, All, ◌/◌,
}
use buddynet.Support.Int.{pos}
use buddynet.Net.{Addr, Texts, cidr_allowed, from_ip}
use buddynet.RateLimit.{Limiter, allow}
use buddynet.Ticket.{
  Stdlib, Payload, Result, ok, err, Reason, verify, parse, check_window, check_relay, eph_pub,
  verify_bind, same,
}
use buddynet.Relay.{Server, Event, Reply, Refusal, second, reject_ticket, reject_window}
use buddynet.Relay.Cookie.{valid_cookie, compute_cookie}
use buddynet.Relay.Admission.{
  Bind, Work, verify_fields, verify_decoded, decode_sig, verify_ticket_bind, answer, bind,
}
use buddynet.Relay.Ticketed.{bind_ticketed}

-- The tables of the relay, by which it forwards.
pub record Untouched (s s' : Server) : Type 0 where
  pub sessions : s'.sessions ≡ s.sessions
  pub legs_per_ip : s'.legs_per_ip ≡ s.legs_per_ip
  pub by_addr : s'.by_addr ≡ s.by_addr
  pub fwds : s'.fwds ≡ s.fwds
  pub max_sessions : s'.max_sessions ≡ s.max_sessions
  pub max_legs_per_ip : s'.max_legs_per_ip ≡ s.max_legs_per_ip

reject_ticket-Untouched :
    (s : Server) (r : Refusal) (sid leg : Text) (src : Option Addr) (now : ℕ)
    → Untouched s (reject_ticket s r sid leg src now).0
unfolding reject_ticket
reject_ticket-Untouched s r sid leg src now = ground arith

reject_window-Untouched :
    (s : Server) (p : Payload) (now : ℕ) → Untouched s (reject_window s p now).0
unfolding reject_window
reject_window-Untouched s p now = ground arith

-- All that a bind must show: the permit, and the possession of its key over this relay's cookie.
pub record Permit (std : Stdlib) (s : Server) (w : Work) (now : ℕ) : Type 0 where
  pub payload : Text
  pub sig : Text
  pub bind_sig : Text
  pub epk : Text
  pub ticket : Payload
  pub decoded : std.decode_b64 w.bind.ticket ≡ some payload
  pub sig_decoded : decode_sig std w.bind.ticket_sig ≡ some sig
  pub bind_sig_decoded : decode_sig std w.bind.bind_sig ≡ some bind_sig
  pub signed : verify std s.server_keys payload sig ≡ true
  pub parsed : parse std payload ≡ ok ticket
  pub current : check_window ticket (pos (now / second)) ≡ ok tt
  pub for_relay : check_relay ticket s.relay_id ≡ ok tt
  pub for_session : w.bind.session_token ≡ ticket.sid
  pub bound : eph_pub std ticket ≡ some epk
  pub possessed : verify_bind std epk payload sig w.cookie bind_sig ≡ ok tt

Result-cases {ℓ} :
    {A : Type ℓ} (r : Result A) → ((a : A) × (r ≡ ok a)) ⊎ ((e : Reason) × (r ≡ err e))
Result-cases (ok a) = inl (a, refl)
Result-cases (err e) = inr (e, refl)

same→eq : (a b : Text) → same a b ≡ true → a ≡ b
same→eq a b h = ground arith

eq→same : (a b : Text) → a ≡ b → same a b ≡ true
eq→same a b h = ground arith

module _ (texts : Texts) (std : Stdlib) (w : Work) (now : ℕ) where
  -- The checks on the fields of a signed ticket.
  abbrev FieldsHold : Server → Payload → Text → Text → Text → Type 0
  FieldsHold s p payload sig bind_sig =
      (epk : Text) × (check_window p (pos (now / second)) ≡ ok tt)
      × (check_relay p s.relay_id ≡ ok tt)
      × (w.bind.session_token ≡ p.sid)
      × (eph_pub std p ≡ some epk)
      × (verify_bind std epk payload sig w.cookie bind_sig ≡ ok tt)

  verify_fields_cases :
      (s : Server) (p : Payload) (payload sig bind_sig : Text)
      → Untouched s (verify_fields texts std s w p payload sig bind_sig now).0
        ⊎ FieldsHold s p payload sig bind_sig
  unfolding verify_fields
  verify_fields_cases s p payload sig bind_sig =
      let deny = λ (r : Refusal). reject_ticket-Untouched s r p.sid p.leg (some w.src) now in
      elim (Result-cases (check_window p (pos (now / second)))) [
        | inr (r, a) ↦ inl (rw (a, verify_fields) (reject_window-Untouched s p now))
        | inl (_, a) ↦ elim (Result-cases (check_relay p s.relay_id)) [
          | inr (r, b) ↦ inl (rw (a, b, verify_fields) (deny _))
          | inl (_, b) ↦ elim (Bool-cases (same w.bind.session_token p.sid)) [
            | inr c ↦ inl (rw (a, b, c, verify_fields) (deny _))
            | inl c ↦ elim (Option-cases (eph_pub std p)) [
              | inl d ↦ inl (rw (a, b, c, d, verify_fields) (deny _))
              | inr (epk, d) ↦
                  elim (Result-cases (verify_bind std epk payload sig w.cookie bind_sig)) [
                    | inr (r, e) ↦ inl (rw (a, b, c, d, e, verify_fields) (deny _))
                    | inl (_, e) ↦ inr (epk, a, b, same→eq w.bind.session_token p.sid c, d, e)
                  ]
            ]
          ]
        ]
      ]

  -- A verification changes what the relay forwards by only if the bind showed the whole permit:
  -- a ticket signed by a configured key, well formed, current, for this relay and for the session
  -- that the bind names, and a proof over this relay's cookie by the key that the ticket names.
  pub verify_ticket_bind-Permit :
      (s : Server) → Untouched s (verify_ticket_bind texts std s w now).0 ⊎ Permit std s w now
  unfolding verify_ticket_bind verify_decoded
  verify_ticket_bind-Permit s =
      let deny =
        λ (r : Refusal). reject_ticket-Untouched s r w.bind.session_token [] (some w.src) now in
      let counted : Server = record s { stat_verify = s.stat_verify + 1 } in
      let deny' = λ (r : Refusal).
        lift (reject_ticket-Untouched counted r w.bind.session_token [] (some w.src) now) in
      elim (Option-cases (std.decode_b64 w.bind.ticket)) [
        | inl a ↦ inl (rw (a, verify_ticket_bind) (deny _))
        | inr (payload, a) ↦ elim (Option-cases (decode_sig std w.bind.ticket_sig)) [
          | inl b ↦ inl (rw (a, b, verify_ticket_bind) (deny _))
          | inr (sig, b) ↦ elim (Option-cases (decode_sig std w.bind.bind_sig)) [
            | inl c ↦ inl (rw (a, b, c, verify_ticket_bind) (deny _))
            | inr (bind_sig, c) ↦ elim (Bool-cases (verify std s.server_keys payload sig)) [
              | inr d ↦ inl (rw (a, b, c, d, verify_ticket_bind) (deny' _))
              | inl d ↦ elim (Result-cases (parse std payload)) [
                | inr (r, e) ↦ inl (rw (a, b, c, d, e, verify_ticket_bind) (deny' _))
                | inl (p, e) ↦ elim (verify_fields_cases counted p payload sig bind_sig) [
                  | inl same ↦ inl (rw (a, b, c, d, e, verify_ticket_bind) (lift same))
                  | inr fields ↦
                      let (epk, current, relay, session, bound, possessed) = fields in
                      inr (record {
                        payload = payload;
                        sig = sig;
                        bind_sig = bind_sig;
                        epk = epk;
                        ticket = p;
                        decoded = a;
                        sig_decoded = b;
                        bind_sig_decoded = c;
                        signed = d;
                        parsed = e;
                        current = current;
                        for_relay = relay;
                        for_session = session;
                        bound = bound;
                        possessed = possessed;
                      })
                ]
              ]
            ]
          ]
        ]
      ]
    where
      lift :
          {s' : Server}
          → Untouched (record s { stat_verify = s.stat_verify + 1 }) s'
          → Untouched s s'
      lift u = record {
        sessions = u.sessions;
        legs_per_ip = u.legs_per_ip;
        by_addr = u.by_addr;
        fwds = u.fwds;
        max_sessions = u.max_sessions;
        max_legs_per_ip = u.max_legs_per_ip;
      }

  -- With a permit a verification is counted, and `bind_ticketed` decides.
  pub verify_ticket_bind-bind_ticketed :
      (s : Server) (permit : Permit std s w now)
      → verify_ticket_bind texts std s w now
        ≡ bind_ticketed texts
            (record s { stat_verify = s.stat_verify + 1 })
            permit.ticket
            w.src
            w.acct
            now
  unfolding verify_ticket_bind verify_decoded verify_fields
  verify_ticket_bind-bind_ticketed s permit =
      rw
        (
          permit.decoded, permit.sig_decoded, permit.bind_sig_decoded, permit.signed, permit.parsed,
          verify_ticket_bind,
        )
        (rw (
          permit.current,
          permit.for_relay,
          eq→same w.bind.session_token permit.ticket.sid permit.for_session,
          permit.bound,
          permit.possessed,
          verify_fields,
        ))

-- What an unvalidated source may draw: a challenge to itself, shorter than its request.
abbrev pub IsShortChallenge : Addr → ℕ → Event → Type 0
IsShortChallenge src req_len (Event.send dst (Reply.challenge c)) =
    (dst ≡ src) × (length c < req_len)
IsShortChallenge src req_len (Event.send dst (Reply.ack c)) = ⊥
IsShortChallenge src req_len (Event.send dst (Reply.datagram c)) = ⊥
IsShortChallenge src req_len (Event.log_rejected a b c d) = ⊥
IsShortChallenge src req_len (Event.log_paired a b) = ⊥
IsShortChallenge src req_len (Event.log_paired_sid a) = ⊥
IsShortChallenge src req_len (Event.log_migrated a b) = ⊥
IsShortChallenge src req_len (Event.log_hoard a) = ⊥

answer-IsShortChallenge :
    (chal : Text) (src : Addr) (req_len : ℕ)
    → All (IsShortChallenge src req_len) (answer chal src req_len)
unfolding answer
answer-IsShortChallenge chal src req_len = elim (Bool-cases (ltb (length chal) req_len)) [
  | inl e ↦ rw e ((refl, ltb→lt _ _ e), tt)
  | inr e ↦ rw e tt
]

-- What the verifications spend: none has begun.
pub record Unspent (s s' : Server) : Type 0 where
  pub in_flight : s'.in_flight ≡ s.in_flight
  pub sig_rl : s'.sig_rl ≡ s.sig_rl
  pub reserve_rl : s'.reserve_rl ≡ s.reserve_rl

-- The state with the limiter of binds and the counters replaced.
abbrev counted : Server → Limiter → ℕ → ℕ → Server
counted s rl rejected challenged = record s {
  bind_rl = rl;
  stat_rejected = rejected;
  stat_challenged = challenged;
}

counted-Untouched :
    (s : Server) (rl : Limiter) (rejected challenged : ℕ)
    → Untouched s (counted s rl rejected challenged)
counted-Untouched s rl rejected challenged = record {
  sessions = refl;
  legs_per_ip = refl;
  by_addr = refl;
  fwds = refl;
  max_sessions = refl;
  max_legs_per_ip = refl;
}

counted-Unspent :
    (s : Server) (rl : Limiter) (rejected challenged : ℕ)
    → Unspent s (counted s rl rejected challenged)
counted-Unspent s rl rejected challenged = record {
  in_flight = refl;
  sig_rl = refl;
  reserve_rl = refl;
}

-- A bind without a valid cookie changes nothing that the relay forwards by, starts no verification
-- and spends none of their budgets, and is answered, if at all, by a challenge to its own source that
-- is shorter than the bind. Of the source only the limiter of binds is asked, once at most.
pub bind_unvalidated :
    (texts : Texts) (std : Stdlib) (hmac : Text → Text → Text) (s : Server) (b : Bind) (src : Addr)
    (req_len now : ℕ)
    → valid_cookie hmac std s b.cookie src now ≡ none
    → let (s', events, work) = bind texts std hmac s b src req_len now in
      Untouched s s'
      × Unspent s s'
      × All (IsShortChallenge src req_len) events
      × (work ≡ none)
      × ((s'.bind_rl ≡ s.bind_rl) ⊎ (s'.bind_rl ≡ (allow s.bind_rl (from_ip texts src.ip) now).0))
unfolding bind valid_cookie compute_cookie
bind_unvalidated texts std hmac s b src req_len now invalid =
    let acct = from_ip texts src.ip in
    let rl = (allow s.bind_rl acct now).0 in
    let rejected = s.stat_rejected + 1 in
    elim (Bool-cases (cidr_allowed texts s.allowed src.ip)) [
      | inr e ↦
          rw (e, bind)
            (
              counted-Untouched s s.bind_rl rejected s.stat_challenged,
              counted-Unspent s s.bind_rl rejected s.stat_challenged,
              tt,
              refl,
              inl refl,
            )
      | inl e ↦ elim (Bool-cases (allow s.bind_rl acct now).1) [
        | inr f ↦
            rw (e, f, bind)
              (
                counted-Untouched s rl rejected s.stat_challenged,
                counted-Unspent s rl rejected s.stat_challenged,
                tt,
                refl,
                inr refl,
              )
        | inl f ↦
            rw (e, f, invalid, bind)
              (
                counted-Untouched s rl s.stat_rejected (s.stat_challenged + 1),
                counted-Unspent s rl s.stat_rejected (s.stat_challenged + 1),
                answer-IsShortChallenge _ src req_len,
                refl,
                inr refl,
              )
      ]
    ]
