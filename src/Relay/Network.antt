-- ===== src/Relay/Network.antt =====
-- Network mode and the data path of internal/relay/server.go.
use buddynet.Support.{
  ℕ, ◌+◌, Bool, true, false, Option, none, some, List, [], ◌∷◌, ◌++◌, Text, text_dec, text_key,
  nat_key, lookup, insert, length, leb, if◌then◌else◌, holds,
}
use buddynet.Net.{Addr, Texts}
use buddynet.Relay.{
  Leg, Session, Server, Event, Reply, max_legs_per_ses, held, count_rejected, warn_hoard,
  drop_if_empty, add_leg, mark_paired, set_seen,
}

-- The loop that looks for a leg by its address.
unfoldable pub find_addr : Texts → Text → List Leg → Option Leg
find_addr texts key [] = none
find_addr texts key (l ∷ legs) =
    if holds (text_dec (texts.addr_string l.addr) key) then some l else find_addr texts key legs

abbrev paired_line : List Leg → List Event
paired_line (l ∷ k ∷ []) = Event.log_paired l.addr k.addr ∷ []
paired_line legs = []

-- A new leg, once every cap has been checked.
unfoldable pub claim : Texts → Server → Text → Session → Addr → Text → ℕ → Server × List Event
claim texts s token ses src acct now =
    let (ses', s₁) = add_leg texts s token ses src acct [] [] in
    let s₂ = mark_paired token ses' s₁ in
    (
      record s₂ { fwds = set_seen s.next_fwd now s₂.fwds },
      paired_line ses'.legs ++ Event.send src (Reply.ack token) ∷ [],
    )

-- The rest of `bindNetworkMode`, with the session found or created.
unfoldable pub join : Texts → Bool → Server → Text → Session → Addr → Text → ℕ → Server × List Event
join texts created s token ses src acct now =
    elim (find_addr texts (texts.addr_string src) ses.legs) [
      | some l ↦
          (record s { fwds = set_seen l.fwd now s.fwds }, Event.send src (Reply.ack token) ∷ [])
      | none ↦
          if leb max_legs_per_ses (length ses.legs)
          then (drop_if_empty created token ses (count_rejected s), [])
          else if leb s.max_legs_per_ip (held acct s.legs_per_ip)
          then (let counted = record s {
            stat_rejected = s.stat_rejected + 1;
            stat_hoard = s.stat_hoard + 1;
          } in
              let (s', lines) = warn_hoard counted acct now in
              (drop_if_empty created token ses s', lines))
          else claim texts s token ses src acct now
    ]

abbrev pub new_session : Text → ℕ → Session
new_session token now = record { token = token; legs = []; paired = false; created = now }

unfoldable pub bind_network_mode : Texts → Server → Text → Addr → Text → ℕ → Server × List Event
bind_network_mode texts s token src acct now = elim (lookup token s.sessions) [
  | some ses ↦ join texts false s token ses src acct now
  | none ↦
      if leb s.max_sessions (length s.sessions)
      then (count_rejected s, [])
      else (let ses = new_session token now in
          join texts true (record s { sessions = insert token ses s.sessions }) token ses src acct
            now)
]

-- A datagram for the other leg. The pointer that `byAddr` holds is followed in the heap.
unfoldable pub send_to : Option Addr → Text → List Event
send_to none pkt = []
send_to (some dst) pkt = Event.send dst (Reply.datagram pkt) ∷ []

unfoldable pub forward : Texts → Server → Addr → Text → ℕ → Server × List Event
forward texts s src pkt now = elim (lookup (texts.addr_string src) s.by_addr) [
  | none ↦ (s, [])
  | some f ↦ elim (lookup f s.fwds) [
    | none ↦ (s, [])
    | some w ↦ (record s { fwds = set_seen f now s.fwds }, send_to w.peer pkt)
  ]
]
