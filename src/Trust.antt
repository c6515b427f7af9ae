-- ===== src/Trust.antt =====
-- internal/role/trust.go: whether a buddy trusts the key that the handshake server vouched for, and
-- the known_peers file; internal/role/trustlock.go: the list of revoked keys. A file is the text of
-- its bytes, and a lock that is not granted is `false`. Keys are raw; their base64 is a parameter,
-- as is the lookup key of a token, the hexadecimal SHA-256. A field is never empty, so the empty
-- text that stands for no key is `none`.
pub mod Store
pub mod Sessions
pub mod RelayOffer
pub mod Revocations
pub mod Curation
mod Tests
use buddynet.Support.{
  ℕ, Bool, true, false, not, ◌&&◌, ◌||◌, Option, none, some, List, [], ◌∷◌, ◌++◌, Text, length, leb,
  if◌then◌else◌,
}
use buddynet.Support.Lines.{newline, lines, fields, ends_line}
use buddynet.Ticket.{same}
use buddynet.Authz.{Found, absent, failed, present}
use buddynet.Authz.File.{Update, refused, unchanged, written, drop_cr, is_comment, max_line}
use buddynet.Supervisor.Manifest.{has_text}

pub record TrustPolicy : Type 0 where
  pub pinned : Option Text
  pub insecure : Bool
  pub has_store : Bool

pub data Decision : Type 0 where
  -- Trusted, or trusted once a human has verified the SAS.
  trusted : Decision
  needs_sas : Decision
  unreadable : Decision
  peer_revoked : Decision
  pin_mismatch : Decision
  key_changed : Decision

pub data PinCheck : Type 0 where
  pins_hold : PinCheck
  session_mismatch : PinCheck
  config_mismatch : PinCheck

-- The key that a line has for a token.
unfoldable pub entry_of : Text → List Text → Option Text
entry_of key [] = none
entry_of key (w ∷ []) = none
entry_of key (w ∷ v ∷ ws) = if same w key then some v else none

-- The loop of `loadKnownPeer`: the first entry of a token; a line that is too long is an error.
unfoldable pub known_in : Text → List Text → Option (Option Text)
unfolding entry_of
known_in key [] = some none
known_in key (l ∷ ls) =
    let rest = known_in key ls in
    if not (leb (length l) max_line)
    then none
    else elim (entry_of key (fields (drop_cr l))) [ some v ↦ some (some v) | none ↦ rest ]

unfoldable pub load_known_peer : Found Text → Text → Option (Option Text)
unfolding known_in lines
load_known_peer absent key = some none
load_known_peer failed key = none
load_known_peer (present s) key = known_in key (lines s)

-- `decode` gives the raw key of a valid base64 key.
module _ (decode : Text → Option Text) (encode : Text → Text) (token_key : Text → Text) where
  -- The loop of `loadRevokedLocked`, with the keys so far.
  unfoldable pub revoked_in : List Text → List Text → Option (List Text)
  unfolding has_text
  revoked_in [] keys = some keys
  revoked_in (l ∷ ls) keys =
      let skipped = revoked_in ls keys in
      if not (leb (length l) max_line) then none else elim (fields (drop_cr l)) [
        | [] ↦ skipped
        | w ∷ ws ↦ if is_comment w then skipped else elim (decode w) [
          | none ↦ skipped
          | some pin ↦ elim (has_text (encode pin) keys) [
            | true ↦ skipped
            | false ↦ revoked_in ls (keys ++ encode pin ∷ [])
          ]
        ]
      ]

  unfoldable pub is_revoked : Found Text → Text → Option Bool
  unfolding revoked_in lines
  is_revoked absent key = some false
  is_revoked failed key = none
  is_revoked (present s) key = elim (revoked_in (lines s) []) [
    | none ↦ none
    | some keys ↦ some (has_text key keys)
  ]

  -- The three sources of trust.
  unfoldable pub decide_unrevoked : TrustPolicy → Found Text → Text → Text → Decision
  unfolding load_known_peer
  decide_unrevoked t store token partner = elim t.pinned [
    | some pin ↦ if not (same partner pin) then pin_mismatch else trusted
    | none ↦ if t.insecure then trusted else elim (load_known_peer store (token_key token)) [
      | none ↦ unreadable
      | some none ↦ needs_sas
      | some (some known) ↦ if not (same known (encode partner)) then key_changed else trusted
    ]
  ]

  -- `revocations` is the file of the revoked keys beside the store.
  unfoldable pub decide : TrustPolicy → Found Text → Found Text → Text → Text → Decision
  unfolding is_revoked decide_unrevoked
  decide t revocations store token partner =
      if t.has_store
      then elim (is_revoked revocations (encode partner)) [
        | none ↦ unreadable
        | some true ↦ peer_revoked
        | some false ↦ decide_unrevoked t store token partner
      ]
      else decide_unrevoked t store token partner

  unfoldable pub enforce_pins : Option Text → Option Text → Text → PinCheck
  enforce_pins none none partner = pins_hold
  enforce_pins none (some c) partner = if not (same partner c) then config_mismatch else pins_hold
  enforce_pins (some p) none partner = if not (same partner p) then session_mismatch else pins_hold
  enforce_pins (some p) (some c) partner =
      if not (same partner p)
      then session_mismatch
      else if not (same partner c)
      then config_mismatch
      else pins_hold

  -- The file with its last line ended, and a line for the token.
  unfoldable pub learned : Text → Text → Text → Text
  learned s key b64 =
      (if not (ends_line s) then s ++ newline ∷ [] else s) ++ (key ++ 32 ∷ (b64 ++ newline ∷ []))

  abbrev pub contents : Found Text → Option Text
  contents absent = some []
  contents failed = none
  contents (present s) = some s

  unfoldable pub learn_peer : Bool → Found Text → Found Text → Text → Text → Update
  unfolding is_revoked learned
  learn_peer locked revocations store key b64 =
      if not locked then refused else elim (is_revoked revocations b64) [
        | none ↦ refused
        | some true ↦ refused
        | some false ↦ elim (contents store) [
          | none ↦ refused
          | some s ↦ written (learned s key b64)
        ]
      ]

  unfoldable pub confirm : TrustPolicy → Bool → Found Text → Found Text → Text → Text → Update
  unfolding learn_peer
  confirm t locked revocations store token partner = elim t.pinned [
    | some pin ↦ unchanged
    | none ↦
        if t.insecure || not t.has_store
        then unchanged
        else learn_peer locked revocations store (token_key token) (encode partner)
  ]
