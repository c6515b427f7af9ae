-- ===== src/Relay/Admission/Runs.antt =====
-- The relay of internal/relay over any sequence of steps: binds, verifications in any order after
-- the binds that started them, forwarded data and ticks of the reaper.
use buddynet.Support.{
  ℕ, ◌+◌, ◌≡◌, sym, subst, inl, inr, Text, text_key, arith, Bool-cases, Option-cases,
}
use buddynet.Net.{Addr, Texts, cidr_allowed, from_ip}
use buddynet.RateLimit.{allow}
use buddynet.Ticket.{Stdlib}
use buddynet.Relay.{Server, reject_ticket}
use buddynet.Relay.Cookie.{valid_cookie}
use buddynet.Relay.Network.{forward}
use buddynet.Relay.Reap.{reap}
use buddynet.Relay.Admission.{
  Bind, Work, ticket_mode, turn_away, spend_global, spend, admit_ticket_bind, verify_ticket_bind,
  do_work, bind,
}
use buddynet.Relay.Admission.Checks.{verify_ticket_bind-Permit, verify_ticket_bind-bind_ticketed}
use buddynet.Relay.Accounting.{IsAccounted}
use buddynet.Relay.Accounting.Steps.{SameTables, SameTables-IsAccounted}
use buddynet.Relay.Accounting.Binds.{bind_network_mode-IsAccounted}
use buddynet.Relay.Accounting.Tickets.{bind_ticketed-IsAccounted}
use buddynet.Relay.Accounting.Reaping.{reap-IsAccounted}

spend-SameTables : (s : Server) (sid : Text) (now : ℕ) → SameTables s (spend s sid now).0
unfolding spend spend_global
spend-SameTables s sid now = ground arith

spend-in_flight : (s : Server) (sid : Text) (now : ℕ) → (spend s sid now).0.in_flight ≡ s.in_flight
unfolding spend spend_global
spend-in_flight s sid now = ground arith

admit_ticket_bind-SameTables :
    (s : Server) (b : Bind) (src : Addr) (acct cookie : Text) (now : ℕ)
    → SameTables s (admit_ticket_bind s b src acct cookie now).0
unfolding admit_ticket_bind turn_away reject_ticket
admit_ticket_bind-SameTables s b src acct cookie now =
    ground (arith, spend-SameTables s b.session_token now)

bind-IsAccounted :
    (texts : Texts) (std : Stdlib) (hmac : Text → Text → Text) (s : Server) (b : Bind) (src : Addr)
    (req_len now : ℕ)
    → IsAccounted s
    → IsAccounted (bind texts std hmac s b src req_len now).0
unfolding bind
bind-IsAccounted texts std hmac s b src req_len now v =
    let acct = from_ip texts src.ip in
    let s₁ : Server = record s { bind_rl = (allow s.bind_rl acct now).0 } in
    elim (Bool-cases (cidr_allowed texts s.allowed src.ip)) [
      | inr e ↦ rw (e, bind) v
      | inl e ↦ elim (Bool-cases (allow s.bind_rl acct now).1) [
        | inr f ↦ rw (e, f, bind) v
        | inl f ↦ elim (Option-cases (valid_cookie hmac std s₁ b.cookie src now)) [
          | inl g ↦ rw (e, f, g, bind) v
          | inr (cookie, g) ↦ elim (Bool-cases (ticket_mode s₁)) [
            | inl h ↦
                rw (e, f, g, h, bind)
                  (SameTables-IsAccounted s₁ (admit_ticket_bind s₁ b src acct cookie now).0
                    (admit_ticket_bind-SameTables s₁ b src acct cookie now) v)
            | inr h ↦
                rw (e, f, g, h, bind)
                  (bind_network_mode-IsAccounted texts s₁ b.session_token src acct now v)
          ]
        ]
      ]
    ]

do_work-IsAccounted :
    (texts : Texts) (std : Stdlib) (s : Server) (w : Work) (now : ℕ)
    → IsAccounted s
    → IsAccounted (do_work texts std s w now).0
unfolding do_work
do_work-IsAccounted texts std s w now v =
    let counted : Server = record s { stat_verify = s.stat_verify + 1 } in
    let after = (verify_ticket_bind texts std s w now).0 in
    elim (verify_ticket_bind-Permit texts std w now s) [
      | inl u ↦
          SameTables-IsAccounted s after
            (u.sessions, u.legs_per_ip, u.max_sessions, u.max_legs_per_ip) v
      | inr permit ↦
          subst (λ r. IsAccounted r.0)
            (sym (verify_ticket_bind-bind_ticketed texts std w now s permit))
            (bind_ticketed-IsAccounted texts counted permit.ticket w.src w.acct now v)
    ]

forward-IsAccounted :
    (texts : Texts) (s : Server) (src : Addr) (pkt : Text) (now : ℕ)
    → IsAccounted s
    → IsAccounted (forward texts s src pkt now).0
unfolding forward
forward-IsAccounted texts s src pkt now v =
    SameTables-IsAccounted s (forward texts s src pkt now).0 (ground arith) v

module _ (texts : Texts) (std : Stdlib) (hmac : Text → Text → Text) where
  -- One step of the relay: a datagram, a verification of any admitted work, or a tick.
  pub data Step (s : Server) : Server → Type 0 where
    binds :
        (b : Bind) (src : Addr) (req_len now : ℕ)
        → Step s (bind texts std hmac s b src req_len now).0
    verifies : (w : Work) (now : ℕ) → Step s (do_work texts std s w now).0
    forwards : (src : Addr) (pkt : Text) (now : ℕ) → Step s (forward texts s src pkt now).0
    reaps : (now : ℕ) → Step s (reap texts s now)

  pub data Reach (s : Server) : Server → Type 0 where
    here : Reach s s
    next : {t u : Server} → Reach s t → Step t u → Reach s u

  Step-IsAccounted : {s t : Server} → Step s t → IsAccounted s → IsAccounted t
  Step-IsAccounted {s} (binds b src req_len now) v =
      bind-IsAccounted texts std hmac s b src req_len now v
  Step-IsAccounted {s} (verifies w now) v = do_work-IsAccounted texts std s w now v
  Step-IsAccounted {s} (forwards src pkt now) v = forward-IsAccounted texts s src pkt now v
  Step-IsAccounted {s} (reaps now) v = reap-IsAccounted texts s now v

  -- Whatever datagrams arrive, in whatever order verifications end and the reaper ticks, the
  -- counts of a relay that started with empty tables mirror the legs of its sessions, no source
  -- holds more legs than its cap, no session has none or more than two, and the sessions are at
  -- most the cap.
  pub Reach-IsAccounted : {s t : Server} → IsAccounted s → Reach s t → IsAccounted t
  Reach-IsAccounted v here = v
  Reach-IsAccounted v (next r st) = Step-IsAccounted st (Reach-IsAccounted v r)
