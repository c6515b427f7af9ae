-- ===== src/Relay/Admission/Bound.antt =====
-- What an admitted bind gets from `bindTicketed` of internal/relay/tickets.go when its leg is free.
use buddynet.Support.{
  ℕ, ◌+◌, ◌<◌, ◌==◌, ◌≡◌, ◌≢◌, ◌⊎◌, refl, ◌∙◌, inl, inr, Bool, true, false, Option, none, some,
  List, [], ◌∷◌, ◌++◌, Text, text_key, lookup, insert, lookup-insert, length, leb, arith,
  Bool-cases, Option-cases,
}
use buddynet.Net.{Addr, Texts}
use buddynet.Ticket.{Stdlib, Payload}
use buddynet.Relay.{
  Leg, Session, Server, Event, Reply, max_legs_per_ses, held, add_leg, mark_paired, short_sid,
}
use buddynet.Relay.Network.{new_session}
use buddynet.Relay.Ticketed.{same, find_name, claim, join, bind_ticketed}
use buddynet.Relay.Admission.{Work, verify_ticket_bind}
use buddynet.Relay.Admission.Checks.{Permit, verify_ticket_bind-bind_ticketed}

-- The session that a ticket names, as it is or as it is created.
abbrev pub session_or_new : Option Session → Text → ℕ → Session
session_or_new (some ses) sid now = ses
session_or_new none sid now = new_session sid now

abbrev pub ticket_session : Server → Text → ℕ → Session
ticket_session s sid now = session_or_new (lookup sid s.sessions) sid now

-- The leg of a ticket is held at an address by the ticket's key, and datagrams from the address
-- find it.
pub record IsBound (texts : Texts) (s : Server) (p : Payload) (src : Addr) : Type 0 where
  pub session : Session
  pub leg : Leg
  pub found : lookup p.sid s.sessions ≡ some session
  pub named : find_name p.leg session.legs ≡ some leg
  pub placed : leg.addr ≡ src
  pub keyed : leg.epk ≡ p.epk
  pub reached : lookup (texts.addr_string src) s.by_addr ≡ some leg.fwd

find_name-append :
    (name : Text) (legs : List Leg) (l : Leg)
    → find_name name legs ≡ none
    → l.name ≡ name
    → find_name name (legs ++ l ∷ []) ≡ some l
unfolding find_name
find_name-append name [] l h e = ground (arith, e)
find_name-append name (k ∷ legs) l h e = elim (Bool-cases (same k.name name)) [
  | inl f ↦ absurd (ground (arith, h, f))
  | inr f ↦ rw (f, find_name) (find_name-append name legs l (rw (f, find_name) at h) e)
]

module _ (texts : Texts) (p : Payload) (src : Addr) (acct : Text) (now : ℕ) where
  -- A free leg is claimed, and acknowledged after at most a line of the log.
  abbrev IsClaimed : Server × List Event → Type 0
  IsClaimed (s, events) =
      IsBound texts s p src
      × ((lines : List Event) × (events ≡ lines ++ Event.send src (Reply.ack p.sid) ∷ []))

  claim-IsClaimed :
      (s : Server) (ses : Session)
      → find_name p.leg ses.legs ≡ none
      → IsClaimed (claim texts s ses p src acct now)
  unfolding claim add_leg mark_paired
  claim-IsClaimed s ses free =
      let leg : Leg = record {
        addr = src;
        fwd = s.next_fwd;
        acct_key = acct;
        name = p.leg;
        epk = p.epk;
      } in
      let ses' : Session = record ses { legs = ses.legs ++ leg ∷ [] } in
      let marked : Session = record ses' { paired = true } in
      let named = find_name-append p.leg ses.legs leg free refl in
      let reached : lookup (texts.addr_string src)
            (insert (texts.addr_string src) s.next_fwd s.by_addr)
          ≡ some s.next_fwd =
        ground (
          arith,
          lookup-insert (texts.addr_string src) (texts.addr_string src) s.next_fwd s.by_addr,
        ) in
      elim (Bool-cases (length ses'.legs == 2)) [
        | inl e ↦
            rw (e, mark_paired)
              (
                record {
                  session = marked;
                  leg = leg;
                  found =
                      lookup-insert p.sid p.sid marked (insert p.sid ses' s.sessions)
                      ∙ ground arith;
                  named = named;
                  placed = refl;
                  keyed = refl;
                  reached = reached;
                },
                (Event.log_paired_sid (short_sid ses.token) ∷ [], refl),
              )
        | inr e ↦
            rw (e, mark_paired)
              (
                record {
                  session = ses';
                  leg = leg;
                  found = lookup-insert p.sid p.sid ses' s.sessions ∙ ground arith;
                  named = named;
                  placed = refl;
                  keyed = refl;
                  reached = reached;
                },
                ([], refl),
              )
      ]

  join-IsClaimed :
      (created : Bool) (s : Server) (ses : Session)
      → find_name p.leg ses.legs ≡ none
      → length ses.legs < max_legs_per_ses
      → held acct s.legs_per_ip < s.max_legs_per_ip
      → IsClaimed (join texts created s ses p src acct now)
  unfolding join
  join-IsClaimed created s ses free legs budget =
      let few : leb max_legs_per_ses (length ses.legs) ≡ false = ground (arith, legs) in
      let within : leb s.max_legs_per_ip (held acct s.legs_per_ip) ≡ false =
        ground (arith, budget) in
      rw (free, few, within, join) (claim-IsClaimed s ses free)

  bind_ticketed-IsClaimed :
      (s : Server)
      → (lookup p.sid s.sessions ≢ none) ⊎ (length s.sessions < s.max_sessions)
      → find_name p.leg (ticket_session s p.sid now).legs ≡ none
      → length (ticket_session s p.sid now).legs < max_legs_per_ses
      → held acct s.legs_per_ip < s.max_legs_per_ip
      → IsClaimed (bind_ticketed texts s p src acct now)
  unfolding bind_ticketed
  bind_ticketed-IsClaimed s room free legs budget = elim (Option-cases (lookup p.sid s.sessions)) [
    | inr (ses, e) ↦
        rw (e, bind_ticketed) (join-IsClaimed false s ses (rw e at free) (rw e at legs) budget)
    | inl e ↦
        let sized : leb s.max_sessions (length s.sessions) ≡ false = fits room e in
        let ses = new_session p.sid now in
        rw (e, sized, bind_ticketed)
          (join-IsClaimed true (record s { sessions = insert p.sid ses s.sessions }) ses
            (rw e at free) (rw e at legs) budget)
  ]
    where
      fits :
          (lookup p.sid s.sessions ≢ none) ⊎ (length s.sessions < s.max_sessions)
          → lookup p.sid s.sessions ≡ none
          → leb s.max_sessions (length s.sessions) ≡ false
      fits (inl h) e = absurd (h e)
      fits (inr h) e = ground (arith, h)

-- A bind that shows the whole permit gets its leg, where the leg is free and the caps have room: the
-- ticket's session is there, or fewer sessions than the relay's bound are; it has fewer than two legs
-- and none of the ticket's name; and the source holds fewer legs than its bound. After the
-- verification the session has the leg at the bind's source with the ticket's key, datagrams from
-- that source find it, and the bind is acknowledged to it last.
pub verify_ticket_bind-IsBound :
    (texts : Texts) (std : Stdlib) (w : Work) (now : ℕ) (s : Server) (permit : Permit std s w now)
    → (lookup permit.ticket.sid s.sessions ≢ none) ⊎ (length s.sessions < s.max_sessions)
    → find_name permit.ticket.leg (ticket_session s permit.ticket.sid now).legs ≡ none
    → length (ticket_session s permit.ticket.sid now).legs < max_legs_per_ses
    → held w.acct s.legs_per_ip < s.max_legs_per_ip
    → let out = verify_ticket_bind texts std s w now in
      IsBound texts out.0 permit.ticket w.src
      × ((lines : List Event) × (out.1
            ≡ lines ++ Event.send w.src (Reply.ack permit.ticket.sid) ∷ []))
verify_ticket_bind-IsBound texts std w now s permit room free legs budget =
    rw (verify_ticket_bind-bind_ticketed texts std w now s permit) (
      bind_ticketed-IsClaimed texts permit.ticket w.src w.acct now
        (record s { stat_verify = s.stat_verify + 1 }) room free legs budget)
