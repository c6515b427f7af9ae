-- ===== src/Trust/Curation/Tests.antt =====
-- The revocation file and the peers commands at concrete files.
use buddynet.Support.{
  ◌≡◌, ◌⊎◌, ◌&&◌, ◌||◌, refl, true, false, none, some, List, [], ◌∷◌, ◌++◌, not, Text, codes, All,
  Option, arith,
}
use buddynet.Support.Lines.{newline, lines, cons_first, fields, split_fields, add_field}
use buddynet.Net.Tests.{texts}
use buddynet.Ticket.{same}
use buddynet.Ticket.Tests.{std, key}
use buddynet.Handshake.Admission.{decode_pub_key}
use buddynet.Handshake.Tests.{program, codec, other_key}
use buddynet.Authz.{Found, absent, present}
use buddynet.Authz.File.{refused, drop_cr, updated, join, ended}
use buddynet.Scope.{trim_left, trim_right, trim}
use buddynet.Supervisor.{PeerSpec, names}
use buddynet.Supervisor.Manifest.{
  ManifestBuddy, has_text, to_spec, to_manifest, parse_buddies, manifest_is_legacy,
  validate_buddy_name, parse_legacy, legacy_line,
}
use buddynet.Trust.{TrustPolicy, peer_revoked, is_revoked, revoked_in, decide}
use buddynet.Trust.Sessions.{
  save_session, remove_session, other_lines, load_sessions, sessions_in, session_of,
}
use buddynet.Trust.Revocations.{
  RevokedEntry, note_of, has_entry, without_entry, dated, entry_line, entry_lines, revoked_text,
  entries_in, load_revoked, add_revoked, remove_revoked,
}
use buddynet.Trust.Revocations.Edits.{IsWritten, is_revoked-remove_revoked}
use buddynet.Trust.Curation.{
  to_buddies, Yaml, Files, Writes, error, added, apply, has_blank, without_spec, has_prefix,
  include, matching, load_peers_file, manifest_needs_migration, save_manifest,
  remove_manifest_entry, session_update, remove_locked, known_keys, resolve_key_ref, peers_remove,
  peers_allow, lift_locked, add_locked, peers_add, peers_migrate,
}
use buddynet.Trust.Curation.Transactions.{
  remove_locked-in_effect, remove_locked-refuses, add_locked-configured,
}
use buddynet.Trust.Curation.References.{resolve_key_ref-only}
use buddynet.Trust.Curation.Tokens.{peers_add-unreadable}

curation_program : Unit {0}
unfolding program lines cons_first fields split_fields add_field drop_cr updated join ended names
    has_text to_spec to_manifest parse_buddies manifest_is_legacy validate_buddy_name parse_legacy
    legacy_line is_revoked revoked_in decide save_session remove_session other_lines load_sessions
    sessions_in session_of trim_left trim_right trim note_of has_entry without_entry entry_line
    entry_lines revoked_text entries_in load_revoked add_revoked remove_revoked apply has_blank
    without_spec has_prefix include matching load_peers_file manifest_needs_migration save_manifest
    remove_manifest_entry session_update remove_locked known_keys resolve_key_ref peers_remove
    peers_allow lift_locked add_locked peers_add peers_migrate
curation_program = tt

abbrev raw : Text → Text
raw s = s

abbrev today : Text
today = codes "2026-08-20"

-- A coding that reads these buddies in whatever it has written.
abbrev yaml_of : List ManifestBuddy → Yaml
yaml_of buddies = record { read = λ s. some buddies; write = λ bs. some (codes "buddies:") }

abbrev yaml : Yaml
yaml = yaml_of []

abbrev revoked_file : Text
revoked_file = other_key ++ codes "  # revoked 2026-01-01" ++ newline ∷ []

abbrev entries : List RevokedEntry
entries = record { key = other_key; note = codes "revoked 2026-01-01" } ∷ []

abbrev files : Files
files = record {
  has_store = true;
  has_manifest = true;
  revocations = present revoked_file;
  store = absent;
  manifest = absent;
}

abbrev read_key : Text → Option Text
read_key = decode_pub_key std codec texts

reads_entries : load_revoked read_key raw (present revoked_file) ≡ some entries
unfolding curation_program
reads_entries = refl

abbrev new_entry : Text → RevokedEntry
new_entry k = record { key = k; note = dated today }

kept : All (IsWritten read_key raw raw today) entries
unfolding curation_program
kept = (
  record {
    pin = other_key;
    decodes = refl;
    canonical = refl;
    word = ground arith;
    some_key = ground arith;
    key = refl;
    line = ground arith;
    fits = omega arith;
  },
  tt,
)

new-IsWritten : IsWritten read_key raw raw today (new_entry key)
unfolding curation_program
new-IsWritten = record {
  pin = key;
  decodes = refl;
  canonical = refl;
  word = ground arith;
  some_key = ground arith;
  key = refl;
  line = ground arith;
  fits = omega arith;
}

is_revoked-remove_revoked_example :
    is_revoked read_key raw raw
      (updated
        (remove_revoked read_key raw today (present revoked_file) other_key)
        (present revoked_file))
      other_key
    ≡ some (not (same other_key other_key) && has_entry other_key entries)
is_revoked-remove_revoked_example =
    is_revoked-remove_revoked read_key raw raw today (present revoked_file) entries other_key
      other_key reads_entries kept

-- The cleanup of the sessions fails.
abbrev broken : Writes
broken = record { revocations = true; store = false; manifest = false }

abbrev sessions : Found Text
sessions = present (codes "tok " ++ key ++ codes " secret" ++ newline ∷ [])

abbrev paired : Files
paired = record files { store = sessions }

remove_locked-in_effect_example :
    let out = remove_locked std codec texts raw yaml raw [] today paired key broken in
    ((out.0 ≡ paired) × (out.1 ≡ error))
    ⊎ (is_revoked read_key raw raw out.0.revocations key
        ≡ some (same key key || has_entry key entries))
remove_locked-in_effect_example =
    remove_locked-in_effect std codec texts raw yaml raw [] today paired entries key reads_entries
      kept new-IsWritten key broken

abbrev policy : TrustPolicy
policy = record { pinned = none; insecure = true; has_store = true }

remove_locked-refuses_example :
    let out = remove_locked std codec texts raw yaml raw [] today paired key broken in
    (decide read_key raw raw policy out.0.revocations sessions (codes "tok") key ≡ peer_revoked)
    × (save_session read_key raw raw true out.0.revocations sessions (codes "tok") key (codes "s")
        ≡ refused)
unfolding curation_program
remove_locked-refuses_example =
    remove_locked-refuses std codec texts raw yaml raw [] today paired entries key reads_entries
      kept new-IsWritten broken policy sessions (codes "tok") key (codes "s") true refl refl
      (ground arith)

abbrev spec : PeerSpec
spec = record { key = other_key; token = []; name = []; expose = none }

abbrev all_done : Writes
all_done = record { revocations = true; store = true; manifest = true }

add_locked-configured_example :
    let out = add_locked std codec texts raw yaml raw [] today files spec all_done in
    (out.0.revocations ≡ files.revocations)
    ⊎ (((names other_key [] ≡ true) × (out.0.manifest ≡ absent))
        ⊎ ((body : Text) × (yaml.write
                (to_buddies std codec texts raw yaml raw [] today (spec ∷ []))
              ≡ some body)
            × (out.0.manifest ≡ present body)))
unfolding curation_program
add_locked-configured_example =
    add_locked-configured std codec texts raw yaml raw [] today files spec [] all_done refl

resolve_key_ref-only_example :
    ((pin : Text) × (read_key (codes "0123") ≡ some pin) × (raw pin ≡ key))
    ⊎ ((keys : List Text) × (known_keys std codec texts raw yaml raw [] today paired ≡ some keys)
        × ((has_prefix other_key (codes "0123") && has_text other_key keys) ≡ same key other_key))
unfolding curation_program
resolve_key_ref-only_example =
    resolve_key_ref-only std codec texts raw yaml raw [] today paired (codes "0123") key other_key
      refl

abbrev dotted : PeerSpec
dotted = record { key = key; token = codes "a.b"; name = []; expose = none }

abbrev dotted_yaml : Yaml
dotted_yaml = yaml_of (to_manifest std codec texts raw dotted ∷ [])

peers_add-unreadable_example :
    let out =
      peers_add std codec texts raw dotted_yaml raw [] today files key
        (codes "a.b")
        []
        (some none)
        true
        all_done in
    (out.1 ≡ added)
    × (load_peers_file std codec texts raw dotted_yaml raw [] today true out.0.manifest ≡ none)
unfolding curation_program
peers_add-unreadable_example =
    peers_add-unreadable std codec texts raw dotted_yaml raw [] today files key key (codes "a.b") []
      (codes "buddies:") none [] entries all_done refl refl refl refl refl refl refl refl
      reads_entries refl refl refl refl refl refl refl refl
