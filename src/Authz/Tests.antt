-- ===== src/Authz/Tests.antt =====
-- The allowlist of internal/role/authz.go at concrete keys and registrations.
use buddynet.Support.{
  ◌≡◌, refl, true, false, none, some, [], ◌∷◌, ◌++◌, Text, codes, text_key, arith, is_some, Map,
}
use buddynet.Support.Lines.{newline, lines, unlines, fields, cons_first, split_fields, add_field}
use buddynet.RateLimit.{new, allow}
use buddynet.Net.Tests.{texts}
use buddynet.Ticket.Tests.{std, key, id}
use buddynet.Handshake.{Message}
use buddynet.Handshake.Tests.{program, codec, alice, registration, now, start}
use buddynet.Authz.{
  Authorizer, absent, present, approve_all, load, new_authorizer, note_missing, is_recent,
  note_stat_error, poll_once, fresh_since_approval, allowed, allow_enroll, within, log_pending_key,
  reg_key, oldest, evict_oldest, make_room, replayed, record_pre_auth, record_pending,
}
use buddynet.Authz.Replay.{calls-replayed, calls, call, notes, checks}
use buddynet.Authz.File.{
  drop_cr, join, valid_pub_key, read_line, read_lines, read_authorized, approval, approve_key,
  revoke_lines, ended, revoke_key, updated,
}
use buddynet.Authz.File.Edits.{approve_key-insert, revoke_key-delete}
use buddynet.Authz.Approval.{note_unknown, pair_derived, pair_approved}
use buddynet.Authz.Approval.Denial.{arrive, arrive-poll_once_absent}

approval_program : Unit {0}
unfolding program approve_all load new_authorizer note_missing is_recent note_stat_error poll_once
    fresh_since_approval allowed allow_enroll within log_pending_key reg_key oldest evict_oldest
    make_room replayed record_pre_auth record_pending calls call drop_cr join valid_pub_key
    read_line read_lines read_authorized approval approve_key revoke_lines ended revoke_key updated
    note_unknown pair_derived pair_approved arrive lines unlines fields cons_first split_fields
    add_field new allow
approval_program = tt

abbrev one_key : Map Text Text
one_key = (key, codes "alice") ∷ []

-- A server that knows the key of the registration.
abbrev knows : Authorizer
knows = record {
  enroll = none;
  keys = one_key;
  mtime = some 7;
  logged = [];
  pend = [];
  recent_regs = [];
  pre_auth_regs = [];
  approved_at = (key, none) ∷ [];
  missing = false;
  last_stat_warn = none;
}

abbrev stranger : Authorizer
stranger = record knows { keys = [] }

abbrev hello : Message
hello = registration (codes "a") key

abbrev tag : Text → Text
tag s = s

approved_is_paired :
    is_some (pair_approved std codec texts tag tag [] start knows hello alice now).3 ≡ true
unfolding approval_program
approved_is_paired = refl

arrive-poll_once_absent_example :
    (arrive std codec texts tag tag
      (record { iteration = []; message = hello; source = alice; at = now } ∷ [])
      start
      (poll_once absent absent 3 knows).0).0
    ≡ start
arrive-poll_once_absent_example =
    arrive-poll_once_absent std codec texts tag tag absent 3
      (record { iteration = []; message = hello; source = alice; at = now } ∷ []) start knows

calls-replayed_example :
    (replayed
      (calls
        (notes (codes "k") (codes "n") 6 ∷ checks (codes "k") (codes "m") 7 ∷ [])
        (replayed knows key id 5).0)
      key
      id
      9).1
    ≡ true
unfolding approval_program
calls-replayed_example =
    calls-replayed (notes (codes "k") (codes "n") 6 ∷ checks (codes "k") (codes "m") 7 ∷ []) knows
      key id 5 9 tt (ground arith) (ground arith) refl (omega arith, (omega arith, tt))
      (omega arith) (omega arith)

abbrev bob_key : Text
bob_key = codes "123456789abcdef0123456789abcdef0"

abbrev file : Text
file = key ++ codes " alice" ++ newline ∷ []

approve_key-insert_example :
    read_authorized codec
      (updated (approve_key codec true (present file) bob_key (codes "bob")) (present file))
    ≡ present ((key, codes "alice") ∷ (bob_key, codes "bob") ∷ [])
unfolding approval_program
approve_key-insert_example =
    approve_key-insert codec file bob_key (codes "bob") one_key refl (omega arith) refl refl
      (ground arith) (ground arith) refl (ground arith) (omega arith) refl

revoke_key-delete_example :
    read_authorized codec (updated (revoke_key true (present file) key) (present file)) ≡ present []
unfolding approval_program
revoke_key-delete_example = revoke_key-delete codec file key one_key refl (omega arith)
