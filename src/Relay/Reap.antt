-- ===== src/Relay/Reap.antt =====
-- The reaper of internal/relay/server.go: one tick of `reap`.
use buddynet.Support.{
  ℕ, ◌-◌, ◌==◌, Bool, false, not, ◌&&◌, none, some, List, [], ◌∷◌, Text, text_key, nat_key, lookup,
  insert, delete, retain, Map, length, ltb, leb, if◌then◌else◌,
}
use buddynet.Net.{Texts}
use buddynet.Relay.{refusal_key, Fwd, Leg, Session, Server, stats_interval, release_ip, set_peer}

-- A leg leaves `byAddr` and releases the key it was charged under.
unfoldable pub drop_leg : Texts → Leg → Server → Server
drop_leg texts l s = record s {
  by_addr = delete (texts.addr_string l.addr) s.by_addr;
  legs_per_ip = release_ip l.acct_key s.legs_per_ip;
}

unfoldable pub drop_legs : Texts → List Leg → Server → Server
drop_legs texts [] s = s
drop_legs texts (l ∷ legs) s = drop_legs texts legs (drop_leg texts l s)

-- `now.UnixNano()-l.fwd.seen.Load() > int64(s.ttl)`
unfoldable pub is_idle : Server → ℕ → Leg → Bool
is_idle s now l = elim (lookup l.fwd s.fwds) [ none ↦ false | some w ↦ ltb s.ttl (now - w.seen) ]

unfoldable pub idle_legs : Server → ℕ → List Leg → List Leg
idle_legs s now [] = []
idle_legs s now (l ∷ legs) =
    let rest = idle_legs s now legs in if is_idle s now l then l ∷ rest else rest

unfoldable pub kept_legs : Server → ℕ → List Leg → List Leg
kept_legs s now [] = []
kept_legs s now (l ∷ legs) =
    let rest = kept_legs s now legs in if is_idle s now l then rest else l ∷ rest

-- A lone leg stops forwarding to its partner.
unfoldable pub unpair : List Leg → Map ℕ Fwd → Map ℕ Fwd
unpair (l ∷ []) fwds = set_peer l.fwd none fwds
unpair legs fwds = fwds

-- The legs that stay, and the session if any does. To drop the idle ones changes no `seen`.
unfoldable pub sweep : Texts → Text → Session → ℕ → Server → Server
sweep texts token ses now s =
    let kept = kept_legs s now ses.legs in
    let s' = drop_legs texts (idle_legs s now ses.legs) s in
    record s' {
      sessions =
          if length kept == 0
          then delete token s'.sessions
          else insert token (record ses { legs = kept }) s'.sessions;
      fwds = unpair kept s'.fwds;
    }

unfoldable pub reap_session : Texts → Text → Session → ℕ → Server → Server
reap_session texts token ses now s =
    if not ses.paired && ltb s.pending_pair (now - ses.created)
    then (let s' = drop_legs texts ses.legs s in record s' { sessions = delete token s'.sessions })
    else sweep texts token ses now s

-- The loop over the sessions that stood in the map at the tick.
unfoldable pub reap_sessions : Texts → Map Text Session → ℕ → Server → Server
reap_sessions texts [] now s = s
reap_sessions texts ((token, ses) ∷ rest) now s =
    reap_sessions texts rest now (reap_session texts token ses now s)

unfoldable pub reap : Texts → Server → ℕ → Server
reap texts s now =
    let s' = reap_sessions texts s.sessions now s in
    record s' {
      hoard_warned = retain (λ t. not (leb stats_interval (now - t))) s'.hoard_warned;
      reject_warned = retain (λ t. not (leb stats_interval (now - t))) s'.reject_warned;
    }
