-- ===== src/Handshake.antt =====
-- internal/role/handshake.go: the registry in which the handshake server pairs the two peers that
-- share a token, `hsRegistry`. The mutex makes each method one step. A Go map iterates in any
-- order: where the code stops early, the order is an argument. A set is a map to `Unit`. Times are
-- in nanoseconds. What a step logs or counts is its list of events.
pub mod Names
pub mod Registry
pub mod Bounds
pub mod Registrations
pub mod Runs
pub mod Admission
pub mod Pairing
pub mod Partners
pub mod Tests
use buddynet.Support.{
  ℕ, ◌==◌, Bool, true, false, not, ◌&&◌, ◌||◌, Option, none, some, List, [], ◌∷◌, Text, text_key,
  text_dec, Map, lookup, insert, delete, length, take, leb, if◌then◌else◌, holds, is_some,
}
use buddynet.Support.Int.{ℤ}
use buddynet.Net.{Addr, Texts, mapped_prefix}
use buddynet.Handshake.Names.{valid_name}

pub record Candidate : Type 0 where
  pub addr : Text
  pub v6 : Bool

pub record HsPeer : Type 0 where
  pub id : Text
  pub pubkey : Text
  pub virtual_ip : Text
  pub name : Text
  pub cands : Map Text Candidate
  pub seen : ℕ

abbrev pub Peers : Type 0
Peers = Map Text HsPeer

-- A set of texts.
abbrev pub TextSet : Type 0
TextSet = Map Text (Unit {0})

pub record HsRegistry : Type 0 where
  pub waiting : Map Text Peers
  pub seen_pks : Map Text TextSet
  pub paired_logged : TextSet
  pub sids : Map Text Text
  pub intruder_warned : TextSet
  pub ttl : ℕ

-- The fields of a protocol.Message that a registration carries.
pub record Message : Type 0 where
  pub is_register : Bool
  pub ver : ℤ
  pub id : Text
  pub token : Text
  pub token_enc : Text
  pub pubkey : Text
  pub virtual_ip : Text
  pub name : Text
  pub nonce : Text
  pub reg_sig : Text
  pub ts : ℤ
  pub code_enc : Text
  pub eph_pub : Text

pub data Event : Type 0 where
  squat_rejected : Event
  new_pub_key : Event
  -- A warning, of the token and the source's address.
  intruder : Text → Text → Event
  dropped : Event
  paired : Event
  -- The PAIRED line, of the token and the two ids.
  announced : Text → Text → Text → Event

abbrev pub max_tokens : ℕ
max_tokens = 4_096

abbrev pub max_ids_per_token : ℕ
max_ids_per_token = 2

abbrev pub max_cands_per_peer : ℕ
max_cands_per_peer = 8

abbrev pub evict_sample : ℕ
evict_sample = 8

-- `src.IP.To4() == nil`
abbrev pub is_v6 : Text → Bool
is_v6 ip = not (length ip == 4 || length ip == 16 && holds (text_dec (take 12 ip) mapped_prefix))

-- At the cap a further endpoint is ignored.
unfoldable pub observe : Texts → HsPeer → Addr → ℕ → HsPeer
observe texts p src now =
    let key = texts.addr_string src in
    let p' = record p { seen = now } in
    if not (is_some (lookup key p.cands)) && leb max_cands_per_peer (length p.cands)
    then p'
    else record p' { cands = insert key (record { addr = key; v6 = is_v6 src.ip }) p.cands }

unfoldable pub new_registry : ℕ → HsRegistry
new_registry ttl = record {
  waiting = [];
  seen_pks = [];
  paired_logged = [];
  sids = [];
  intruder_warned = [];
  ttl = ttl;
}

-- A token leaves every map, as eviction and the reaper do it.
unfoldable pub release : Text → HsRegistry → HsRegistry
release token r = record r {
  waiting = delete token r.waiting;
  seen_pks = delete token r.seen_pks;
  intruder_warned = delete token r.intruder_warned;
  paired_logged = delete token r.paired_logged;
  sids = delete token r.sids;
}

unfoldable pub warn_intruder : HsRegistry → Text → Addr → HsRegistry × List Event
warn_intruder r token src =
    if is_some (lookup token r.intruder_warned)
    then (r, [])
    else if leb max_tokens (length r.intruder_warned)
    then (r, [])
    else (
      record r { intruder_warned = insert token tt r.intruder_warned },
      intruder token src.ip ∷ [],
    )
