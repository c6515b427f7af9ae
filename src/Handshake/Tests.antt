-- ===== src/Handshake/Tests.antt =====
-- The registry and the checks of internal/role/handshake.go at concrete registrations.
use buddynet.Support.{
  ℕ, ◌*◌, ◌≡◌, ◌⊎◌, refl, true, false, some, [], ◌++◌, Text, codes, text_key, lookup, insert,
  delete, retain, arith, is_some,
}
use buddynet.Support.Int.{pos}
use buddynet.Net.{Addr}
use buddynet.Net.Tests.{texts, v4}
use buddynet.Ticket.Tests.{program as ticket_program, std, key, id, checksum}
use buddynet.Peer.{precedes}
use buddynet.Handshake.{HsPeer, HsRegistry, Message, observe, new_registry, release, warn_intruder}
use buddynet.Handshake.Names.{
  all_bytes, ends_pass, matches_name, matches_alias, valid_field, valid_name,
}
use buddynet.Handshake.Registry.{
  bucket_seen, stalest, evict_stalest, open_bucket, note_key, record_key, update, find_partner,
  enter, upsert, note_paired, sid_for, fresh_peers, reap_bucket, reap_buckets, reap,
}
use buddynet.Handshake.Bounds.{IsBounded}
use buddynet.Handshake.Registrations.{IsDerived}
use buddynet.Handshake.Runs.{here, next, upserts, reaps, notes, names, Reach-IsBounded}
use buddynet.Handshake.Admission.{
  Codec, second, valid_nonce, require_v7_fields, resolve_token, verify_registration,
  registration_matches_tls_key, decode_pub_key, host_bytes, virtual_ip_string, derive_vip, pair,
  pair_register, leg_for, ticket_for, issue_ticket,
}
use buddynet.Handshake.Pairing.{derived_vip, pair_register-IsBounded}

unfoldable pub program : Unit {0}
unfolding ticket_program precedes observe new_registry release warn_intruder all_bytes ends_pass
    matches_name matches_alias valid_field valid_name bucket_seen stalest evict_stalest open_bucket
    note_key record_key update find_partner enter upsert note_paired sid_for fresh_peers reap_bucket
    reap_buckets reap valid_nonce require_v7_fields resolve_token verify_registration
    registration_matches_tls_key decode_pub_key host_bytes virtual_ip_string derive_vip pair
    pair_register leg_for ticket_for issue_ticket lookup insert delete retain
program = tt

abbrev pub codec : Codec
codec = record {
  decode_std = λ s. some s;
  registration_payload = λ m. m.token ++ m.id;
  open_code = λ s. some s;
}

abbrev pub alice : Addr
alice = record { ip = v4; port = 40000 }

abbrev pub token : Text
token = codes "meet-here"

abbrev pub other_key : Text
other_key = codes "123456789abcdef0123456789abcdef0"

-- A registration that is signed as the toy signature has it.
abbrev pub registration : Text → Text → Message
registration name pubkey = record {
  is_register = true;
  ver = pos 8;
  id = name;
  token = token;
  token_enc = [];
  pubkey = pubkey;
  virtual_ip = [];
  name = codes "web-01";
  nonce = id;
  reg_sig = checksum pubkey (token ++ name);
  ts = pos 100;
  code_enc = [];
  eph_pub = key;
}

abbrev pub now : ℕ
now = 110 * second

abbrev pub start : HsRegistry
start = new_registry (30 * second)

abbrev first : HsRegistry
first = (pair_register std codec texts [] start (registration (codes "a") key) alice now).0

-- The second buddy finds the first, under its derived address.
second_finds_first :
    is_some
      (pair_register std codec texts first.waiting first
        (registration (codes "b") other_key)
        alice
        now).2
    ≡ true
unfolding program
second_finds_first = refl

-- A name of the shape of a fingerprint is refused.
alias_is_no_name : valid_name (codes "deadbeef") ≡ false
unfolding program
alias_is_no_name = refl

start-IsBounded : IsBounded (derived_vip std codec texts) start
unfolding lookup new_registry
start-IsBounded = record {
  distinct = tt;
  tokens = omega arith;
  buckets = tt;
  keys = tt;
  keys_placed = λ t h. refl;
  warned_placed = λ t h. refl;
  warned = omega arith;
  logged = omega arith;
  sids = omega arith;
}

pair_register-IsBounded_example :
    IsBounded (derived_vip std codec texts) first
    × ((first ≡ start)
        ⊎ (verify_registration std codec texts (registration (codes "a") key) (pos now) ≡ true))
unfolding new_registry
pair_register-IsBounded_example =
    pair_register-IsBounded std codec texts [] start (registration (codes "a") key) alice now
      (λ ip e. absurd (ground arith)) refl (tt, refl) start-IsBounded

-- A registration at its derived address, as `pair_register` hands it to the registry.
abbrev placed : Message
placed = record (registration (codes "a") key) { virtual_ip = derived_vip std codec texts key }

placed-IsDerived : IsDerived (derived_vip std codec texts) placed
unfolding program
placed-IsDerived = record {
  keyed = λ e. absurd (ground arith);
  addressed = λ e. absurd (ground arith);
  derived = refl;
}

abbrev entered : HsRegistry
entered = (upsert texts [] start placed alice now).0

abbrev last : HsRegistry
last = reap (sid_for (note_paired entered token).0 token (some id)).0 now

Reach-IsBounded_example : IsBounded (derived_vip std codec texts) last
unfolding new_registry
Reach-IsBounded_example =
    Reach-IsBounded texts (derived_vip std codec texts) {r = start} {s = last} start-IsBounded (
      next
        (next
          (next (next here (upserts [] placed alice now (tt, refl) placed-IsDerived)) (notes token))
          (names token (some id)))
        (reaps now))

abbrev partner : HsPeer
partner = record { id = codes "b"; pubkey = key; virtual_ip = []; name = []; cands = []; seen = 7 }
