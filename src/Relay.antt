-- ===== src/Relay.antt =====
-- internal/relay/server.go and tickets.go: the blind UDP relay. This module has the state of
-- `Server` and the helpers that both kinds of bind share. A pointer to a `fwd` is a number, its
-- place in the heap `fwds`, since a leg and `byAddr` share one. The mutex makes each handler one
-- step; the clock is read once in a step, and times are in nanoseconds. What a step sends and
-- logs is its list of events.
pub mod Network
pub mod Ticketed
pub mod Reap
pub mod Cookie
pub mod Wire
pub mod Fallback
pub mod Admission
pub mod Accounting
mod Tests
use buddynet.Support.{
  ℕ, suc, ◌+◌, ◌-◌, ◌*◌, ◌==◌, Bool, true, false, not, ◌&&◌, Option, none, some, List, [], ◌∷◌,
  ◌++◌, Text, text_dec, text_key, Key, nat_key, Map, lookup, insert, delete, retain, length, take,
  ltb, leb, if◌then◌else◌, holds,
}
use buddynet.Net.{Addr, Prefix, Texts}
use buddynet.Ticket
use buddynet.RateLimit.{Limiter}

pub record Fwd : Type 0 where
  pub peer : Option Addr
  pub seen : ℕ

pub record Leg : Type 0 where
  pub addr : Addr
  pub fwd : ℕ
  pub acct_key : Text
  pub name : Text
  pub epk : Text

pub record Session : Type 0 where
  pub token : Text
  pub legs : List Leg
  pub paired : Bool
  pub created : ℕ

-- The fixed labels of a refusal: those of a ticket, and the relay's own.
pub data Refusal : Type 0 where
  of_ticket : Ticket.Reason → Refusal
  no_ticket encoding sid_claim budget in_flight leg_taken leg_cap capacity migration : Refusal

Reason-discrete : Discrete Ticket.Reason
Reason-discrete = hlevel

unfoldable pub Refusal-discrete : Discrete Refusal
unfolding Reason-discrete
Refusal-discrete = hlevel Reason-discrete

instance abbrev pub refusal_key : Key Refusal
refusal_key = record { dec = Refusal-discrete }

pub data Reply : Type 0 where
  ack : Text → Reply
  challenge : Text → Reply
  datagram : Text → Reply

-- What leaves the relay: packets, and log lines with what they name.
pub data Event : Type 0 where
  send : Addr → Reply → Event
  log_rejected : Text → Text → Refusal → Option Text → Event
  log_paired : Addr → Addr → Event
  log_paired_sid : Text → Event
  log_migrated : Text → Text → Event
  log_hoard : Option Text → Event

pub record Server : Type 0 where
  pub ttl : ℕ
  pub allowed : List Prefix
  pub cookie_key : Text
  pub max_sessions : ℕ
  pub max_legs_per_ip : ℕ
  pub pending_pair : ℕ
  pub server_keys : List Text
  pub relay_id : Text
  pub debug : Bool
  pub bind_rl : Limiter
  pub sig_rl : Limiter
  pub reserve_rl : Limiter
  pub in_flight : ℕ
  pub sessions : Map Text Session
  pub legs_per_ip : Map Text ℕ
  pub by_addr : Map Text ℕ
  pub fwds : Map ℕ Fwd
  pub next_fwd : ℕ
  pub stat_paired : ℕ
  pub stat_challenged : ℕ
  pub stat_rejected : ℕ
  pub stat_hoard : ℕ
  pub stat_ticket : ℕ
  pub stat_verify : ℕ
  pub hoard_warned : Map Text ℕ
  pub reject_warned : Map Refusal ℕ

abbrev pub max_legs_per_ses : ℕ
max_legs_per_ses = 2

abbrev pub second : ℕ
second = 1_000_000_000

abbrev pub stats_interval : ℕ
stats_interval = 60 * second

-- `m[a]` of a map of counters.
abbrev pub or_zero : Option ℕ → ℕ
or_zero none = 0
or_zero (some n) = n

unfoldable pub held : Text → Map Text ℕ → ℕ
held a m = or_zero (lookup a m)

unfoldable pub release_ip : Text → Map Text ℕ → Map Text ℕ
release_ip acct m = if leb (held acct m) 1 then delete acct m else insert acct (held acct m - 1) m

abbrev pub short_sid : Text → Text
short_sid sid = if ltb 8 (length sid) then take 8 sid else sid

-- `last` is recent: `now.Sub(last) < statsInterval`.
abbrev pub is_recent : ℕ → Option ℕ → Bool
is_recent now none = false
is_recent now (some last) = ltb (now - last) stats_interval

unfoldable pub warn_hoard : Server → Text → ℕ → Server × List Event
warn_hoard s acct now =
    let line = log_hoard (if s.debug then some acct else none) in
    if is_recent now (lookup acct s.hoard_warned)
    then (s, [])
    else if leb s.max_sessions (length s.hoard_warned)
    then (let kept = retain (λ t. not (leb stats_interval (now - t))) s.hoard_warned in
        if leb s.max_sessions (length kept)
        then (record s { hoard_warned = kept }, [])
        else (record s { hoard_warned = insert acct now kept }, line ∷ []))
    else (record s { hoard_warned = insert acct now s.hoard_warned }, line ∷ [])

unfoldable pub throttle : Server → Refusal → ℕ → Server × Bool
throttle s reason now =
    if is_recent now (lookup reason s.reject_warned)
    then (s, false)
    else if leb 64 (length s.reject_warned)
    then (s, false)
    else (record s { reject_warned = insert reason now s.reject_warned }, true)

-- The address is shown in debug mode only.
abbrev pub shown : Bool → Option Addr → Option Text
shown true (some a) = some a.ip
shown true none = none
shown false src = none

-- `rejectTicket`; a refusal with no source, as `rejectWindow` logs it, passes `none`.
unfoldable pub reject_ticket :
    Server → Refusal → Text → Text → Option Addr → ℕ → Server × List Event
unfolding throttle
reject_ticket s reason sid leg src now =
    let (s', may) = throttle (record s { stat_ticket = s.stat_ticket + 1 }) reason now in
    if may then (s', log_rejected (short_sid sid) leg reason (shown s.debug src) ∷ []) else (s', [])

unfoldable pub reject_window : Server → Ticket.Payload → ℕ → Server × List Event
unfolding reject_ticket
reject_window s p now = reject_ticket s (of_ticket Ticket.window) p.sid p.leg none now

-- `s.statRejected.Add(1)`
abbrev pub count_rejected : Server → Server
count_rejected s = record s { stat_rejected = s.stat_rejected + 1 }

-- Stores through a `*fwd`.
unfoldable pub set_peer : ℕ → Option Addr → Map ℕ Fwd → Map ℕ Fwd
set_peer f peer fwds = elim (lookup f fwds) [
  | none ↦ fwds
  | some w ↦ insert f (record w { peer = peer }) fwds
]

unfoldable pub set_seen : ℕ → ℕ → Map ℕ Fwd → Map ℕ Fwd
set_seen f now fwds = elim (lookup f fwds) [
  | none ↦ fwds
  | some w ↦ insert f (record w { seen = now }) fwds
]

-- The partner pointers of two legs.
unfoldable pub publish : List Leg → Map ℕ Fwd → Map ℕ Fwd
publish (l ∷ k ∷ []) fwds = set_peer k.fwd (some l.addr) (set_peer l.fwd (some k.addr) fwds)
publish legs fwds = fwds

-- A session that this call created is taken back out if it has no leg.
unfoldable pub drop_if_empty : Bool → Text → Session → Server → Server
drop_if_empty created token ses s =
    if created && length ses.legs == 0 then record s { sessions = delete token s.sessions } else s

-- `append(ses.legs, l)`, the charge of its key, and its place in `byAddr`.
unfoldable pub add_leg :
    Texts → Server → Text → Session → Addr → Text → Text → Text → Session × Server
add_leg texts s token ses src acct name epk =
    let leg : Leg = record {
      addr = src;
      fwd = s.next_fwd;
      acct_key = acct;
      name = name;
      epk = epk;
    } in
    let ses' = record ses { legs = ses.legs ++ leg ∷ [] } in
    (
      ses',
      record s {
        sessions = insert token ses' s.sessions;
        by_addr = insert (texts.addr_string src) s.next_fwd s.by_addr;
        legs_per_ip = insert acct (held acct s.legs_per_ip + 1) s.legs_per_ip;
        fwds = insert s.next_fwd (record { peer = none; seen = 0 }) s.fwds;
        next_fwd = suc s.next_fwd;
      },
    )

-- A session that has reached two legs is marked, and its partner pointers are published.
unfoldable pub mark_paired : Text → Session → Server → Server
mark_paired token ses s =
    if length ses.legs == 2
    then record s {
      sessions = insert token (record ses { paired = true }) s.sessions;
      stat_paired = s.stat_paired + 1;
      fwds = publish ses.legs s.fwds;
    }
    else s
