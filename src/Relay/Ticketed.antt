-- ===== src/Relay/Ticketed.antt =====
-- Ticket mode: `bindTicketed` of internal/relay/tickets.go, its last step, which alone changes
-- the sessions.
use buddynet.Support.{
  ℕ, ◌+◌, ◌==◌, Bool, true, false, not, ◌&&◌, Option, none, some, List, [], ◌∷◌, ◌++◌, Text,
  text_dec, text_key, nat_key, lookup, insert, delete, length, leb, if◌then◌else◌, holds,
}
use buddynet.Net.{Addr, Texts}
use buddynet.Ticket.{Payload}
use buddynet.Relay.{
  Leg, Session, Server, Event, Reply, Refusal, leg_taken, leg_cap, capacity, migration,
  max_legs_per_ses, held, release_ip, count_rejected, warn_hoard, reject_ticket, short_sid,
  drop_if_empty, add_leg, mark_paired, set_seen, publish,
}
use buddynet.Relay.Network.{new_session}

abbrev pub same : Text → Text → Bool
same a b = holds (text_dec a b)

unfoldable pub find_name : Text → List Leg → Option Leg
find_name name [] = none
find_name name (l ∷ legs) = if same l.name name then some l else find_name name legs

-- A refusal is counted, and logged as `rejectTicket` does.
unfoldable pub refuse : Server → Refusal → Payload → Addr → ℕ → Server × List Event
refuse s reason p src now = reject_ticket (count_rejected s) reason p.sid p.leg (some src) now

-- The log lines of `pairLocked`, which name the session and no address.
abbrev paired_line : Session → List Event
paired_line ses =
    if length ses.legs == 2 then Event.log_paired_sid (short_sid ses.token) ∷ [] else []

-- The leg is free.
unfoldable pub claim : Texts → Server → Session → Payload → Addr → Text → ℕ → Server × List Event
claim texts s ses p src acct now =
    let (ses', s₁) = add_leg texts s p.sid ses src acct p.leg p.epk in
    let s₂ = mark_paired p.sid ses' s₁ in
    (
      record s₂ { fwds = set_seen s.next_fwd now s₂.fwds },
      paired_line ses' ++ Event.send src (Reply.ack p.sid) ∷ [],
    )

-- The legs, with the address and the key of the named one replaced.
unfoldable pub move_leg : Text → Addr → Text → List Leg → List Leg
move_leg name src acct [] = []
move_leg name src acct (l ∷ legs) =
    if same l.name name
    then (record l { addr = src; acct_key = acct }) ∷ legs
    else l ∷ move_leg name src acct legs

-- The migration of a leg to a new address, once its budget allows it.
unfoldable pub migrate :
    Texts → Server → Session → Leg → Payload → Addr → Text → ℕ → Server × List Event
migrate texts s ses l p src acct now =
    let legs = move_leg p.leg src acct ses.legs in
    let counts =
      if same l.acct_key acct
      then s.legs_per_ip
      else (let released = release_ip l.acct_key s.legs_per_ip in
          insert acct (held acct released + 1) released) in
    (
      record s {
        sessions = insert p.sid (record ses { legs = legs }) s.sessions;
        by_addr =
            insert (texts.addr_string src) l.fwd (delete (texts.addr_string l.addr) s.by_addr);
        legs_per_ip = counts;
        fwds = set_seen l.fwd now (publish legs s.fwds);
      },
      Event.log_migrated (short_sid p.sid) p.leg ∷ Event.send src (Reply.ack p.sid) ∷ [],
    )

-- The leg is held: by another key, at this address, or at another one.
unfoldable pub rebind :
    Texts → Bool → Server → Session → Leg → Payload → Addr → Text → ℕ → Server × List Event
rebind texts created s ses l p src acct now =
    if not (same l.epk p.epk)
    then refuse (drop_if_empty created p.sid ses s) leg_taken p src now
    else if same (texts.addr_string l.addr) (texts.addr_string src)
    then (record s { fwds = set_seen l.fwd now s.fwds }, Event.send src (Reply.ack p.sid) ∷ [])
    else if not (same l.acct_key acct) && leb s.max_legs_per_ip (held acct s.legs_per_ip)
    then refuse s migration p src now
    else migrate texts s ses l p src acct now

-- The rest of `bindTicketed`, with the session found or created.
unfoldable pub join :
    Texts → Bool → Server → Session → Payload → Addr → Text → ℕ → Server × List Event
join texts created s ses p src acct now = elim (find_name p.leg ses.legs) [
  | some l ↦ rebind texts created s ses l p src acct now
  | none ↦
      if leb max_legs_per_ses (length ses.legs)
      then refuse (drop_if_empty created p.sid ses s) leg_cap p src now
      else if leb s.max_legs_per_ip (held acct s.legs_per_ip)
      then (let (s₁, lines) = warn_hoard (record s { stat_hoard = s.stat_hoard + 1 }) acct now in
          let (s₂, lines') = refuse (drop_if_empty created p.sid ses s₁) leg_cap p src now in
          (s₂, lines ++ lines'))
      else claim texts s ses p src acct now
]

unfoldable pub bind_ticketed : Texts → Server → Payload → Addr → Text → ℕ → Server × List Event
bind_ticketed texts s p src acct now = elim (lookup p.sid s.sessions) [
  | some ses ↦ join texts false s ses p src acct now
  | none ↦
      if leb s.max_sessions (length s.sessions)
      then refuse s capacity p src now
      else (let ses = new_session p.sid now in
          join texts true (record s { sessions = insert p.sid ses s.sessions }) ses p src acct now)
]
