-- ===== src/Control.antt =====
-- internal/tunnel/control.go: which connections the handshake server's QUIC listener takes. The
-- mutex makes each method one step. quic-go calls `gateConn` for a connection and runs the release
-- when the connection is gone, and acceptConns runs it too; a release is known by a number.
pub mod Slots
mod Tests
use buddynet.Support.{
  ℕ, suc, ◌+◌, ◌-◌, ◌*◌, Bool, true, false, not, ◌||◌, Option, none, some, List, [], ◌∷◌, Text,
  text_key, Map, lookup, insert, delete, leb, ltb, if◌then◌else◌, nat_key,
}
use buddynet.Net.{Addr, Prefix, Texts, addr_from_slice, unmap, any_contains, from_ip}
use buddynet.Relay.{held, release_ip}

abbrev pub max_ctrl_conns : ℕ
max_ctrl_conns = 256

abbrev pub max_ctrl_conns_per_ip : ℕ
max_ctrl_conns_per_ip = 16

-- In nanoseconds.
abbrev pub reject_log_interval : ℕ
reject_log_interval = 30 * 1_000_000_000

-- `slots` are the connections whose release has not run, with their accounting keys.
pub record Control : Type 0 where
  pub conns : ℕ
  pub per_ip : Map Text ℕ
  pub rejected : ℕ
  pub last_log_at : Option ℕ
  pub slots : Map ℕ Text
  pub next_slot : ℕ

abbrev pub new_control : Control
new_control = record {
  conns = 0;
  per_ip = [];
  rejected = 0;
  last_log_at = none;
  slots = [];
  next_slot = 0;
}

-- The source is an address of UDP, or another one.
unfoldable pub source_allowed : Texts → List Prefix → Option Addr → Bool
unfolding addr_from_slice unmap any_contains
source_allowed texts [] remote = true
source_allowed texts (p ∷ allowed) none = false
source_allowed texts (p ∷ allowed) (some a) = elim (addr_from_slice a.ip) [
  | none ↦ false
  | some ip ↦ any_contains texts (p ∷ allowed) (unmap ip)
]

-- The connection's number, if it gets a slot.
unfoldable pub admit : Text → Control → Control × Option ℕ
admit key s =
    if leb max_ctrl_conns s.conns || leb max_ctrl_conns_per_ip (held key s.per_ip)
    then (record s { rejected = s.rejected + 1 }, none)
    else (
      record s {
        conns = s.conns + 1;
        per_ip = insert key (held key s.per_ip + 1) s.per_ip;
        slots = insert s.next_slot key s.slots;
        next_slot = suc s.next_slot;
      },
      some s.next_slot,
    )

-- The closure that `admit` returns: it acts once.
unfoldable pub release : ℕ → Control → Control
release i s = elim (lookup i s.slots) [
  | none ↦ s
  | some key ↦ record s {
    conns = s.conns - 1;
    per_ip = release_ip key s.per_ip;
    slots = delete i s.slots;
  }
]

abbrev pub is_quiet : ℕ → Option ℕ → Bool
is_quiet now none = false
is_quiet now (some t) = ltb (now - t) reject_log_interval

-- The count of the line that is logged, if any.
unfoldable pub note_rejection : ℕ → Control → Control × Option ℕ
note_rejection now s =
    if is_quiet now s.last_log_at
    then (s, none)
    else (record s { rejected = 0; last_log_at = some now }, some s.rejected)

-- `ipKey`: the accounting key of a source. Of an address that is not of UDP, `shown` is its text.
unfoldable pub ip_key : Texts → Option Addr → Text → Text
ip_key texts (some a) shown = from_ip texts a.ip
ip_key texts none shown = shown

-- The number of the connection if it is let in, and the count of the line that is logged.
unfoldable pub gate_conn :
    Texts → List Prefix → Bool → Option Addr → Text → ℕ → Control → Control × Option ℕ × Option ℕ
unfolding source_allowed ip_key admit note_rejection
gate_conn texts allowed verified remote shown now s =
    if not verified
    then (let (s', line) = note_rejection now s in (s', none, line))
    else if not (source_allowed texts allowed remote)
    then (let (s', line) = note_rejection now s in (s', none, line))
    else (let (s₁, slot) = admit (ip_key texts remote shown) s in
        elim slot [
          | some i ↦ (s₁, some i, none)
          | none ↦ (let (s₂, line) = note_rejection now s₁ in (s₂, none, line))
        ])
