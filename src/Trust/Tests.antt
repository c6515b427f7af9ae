-- ===== src/Trust/Tests.antt =====
-- The trust of internal/role/trust.go at concrete keys.
use buddynet.Support.{
  ◌≡◌, ◌⊎◌, refl, true, false, none, some, Option, [], Text, codes, text_dec, ℕ_discrete,
  if◌then◌else◌, arith,
}
use buddynet.Support.Lines.{lines, fields, cons_first, split_fields, add_field}
use buddynet.Ticket.{same}
use buddynet.Authz.{Found, absent, present}
use buddynet.Authz.File.{updated, drop_cr}
use buddynet.Supervisor.Manifest.{has_text}
use buddynet.Trust.{
  TrustPolicy, trusted, key_changed, peer_revoked, entry_of, known_in, load_known_peer, revoked_in,
  is_revoked, decide_unrevoked, decide, enforce_pins, learned, learn_peer, confirm,
}
use buddynet.Trust.RelayOffer.{trim_dot, host_of, trusted_relay, note_skipped}
use buddynet.Trust.Store.{IsEntry, decide-confirm, decide-trusted}

trust_program : Unit {0}
unfolding lines fields cons_first split_fields add_field drop_cr updated has_text entry_of known_in
    load_known_peer revoked_in is_revoked decide_unrevoked decide enforce_pins learned learn_peer
    confirm text_dec ℕ_discrete trim_dot host_of trusted_relay note_skipped
trust_program = tt

-- Toy codings: a key and a token are their own texts.
abbrev decode : Text → Option Text
decode s = some s

abbrev code : Text → Text
code s = s

abbrev first_use : TrustPolicy
first_use = record { pinned = none; insecure = false; has_store = true }

-- A store whose last line is not ended.
abbrev store : Found Text
store = present (codes "tok1 bob")

-- A revoked key is refused under the lab flag too.
revoked_in_lab :
    decide decode code code
      (record first_use { insecure = true })
      (present (codes "eve # gone"))
      store
      (codes "tok2")
      (codes "eve")
    ≡ peer_revoked
unfolding trust_program
revoked_in_lab = refl

alice-IsEntry : IsEntry decode code code (codes "tok2") (codes "alice")
alice-IsEntry = record {
  key_word = ground arith;
  some_key = ground arith;
  b64_word = ground arith;
  some_b64 = ground arith;
  line = ground arith;
  fits = omega arith;
}

decide-confirm_example :
    let store' =
      updated
        (confirm decode code code first_use true absent store (codes "tok2") (codes "alice"))
        store in
    decide decode code code first_use absent store' (codes "tok2") (codes "eve")
    ≡ (if same (codes "alice") (codes "eve") then trusted else key_changed)
unfolding trust_program
decide-confirm_example =
    decide-confirm decode code code first_use absent store (codes "tok1 bob") (codes "tok2")
      (codes "alice") (codes "eve") refl refl refl refl refl refl alice-IsEntry

decide-trusted_example :
    ((true ≡ false) ⊎ (is_revoked decode code code absent (codes "bob") ≡ some false))
    × ((none ≡ some (codes "bob"))
        ⊎ ((false ≡ true) ⊎ (load_known_peer store (codes "tok1") ≡ some (some (codes "bob")))))
unfolding trust_program
decide-trusted_example =
    decide-trusted decode code code first_use absent store (codes "tok1") (codes "bob") refl

abbrev no_flag : Text
no_flag = []
