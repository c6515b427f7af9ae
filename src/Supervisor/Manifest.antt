-- ===== src/Supervisor/Manifest.antt =====
-- internal/role/peersfile.go: the peers manifest and the specs that the supervisor maintains. The
-- YAML decoder is outside: its buddies are an argument. base64.StdEncoding is a parameter.
pub mod Assembly
use buddynet.Support.{
  ℕ, suc, ◌+◌, Bool, true, false, not, ◌&&◌, ◌||◌, ◌==◌, Option, none, some, List, [], ◌∷◌, ◌++◌,
  Text, text_key, Map, lookup, insert, length, leb, ltb, if◌then◌else◌, is_some,
}
use buddynet.Support.Lines.{lines, fields}
use buddynet.Net.{Texts}
use buddynet.Ticket.{Stdlib, same}
use buddynet.Handshake.Names.{all_bytes, valid_field}
use buddynet.Handshake.Admission.{Codec, decode_pub_key, host_bytes}
use buddynet.Authz.File.{drop_cr, is_comment, max_line}
use buddynet.Scope.{Scope}
use buddynet.Supervisor.{PeerSpec, max_buddies, names}

pub record ManifestBuddy : Type 0 where
  pub name : Text
  pub key : Text
  pub token : Text
  pub expose : Option Scope

abbrev pub is_name_byte : ℕ → Bool
is_name_byte c = leb 97 c && leb c 122 || leb 65 c && leb c 90 || leb 48 c && leb c 57 || c == 45

unfoldable pub validate_buddy_name : Text → Bool
validate_buddy_name name =
    if same name []
    then true
    else if ltb 63 (length name)
    then false
    else all_bytes is_name_byte name

unfoldable pub has_text : Text → List Text → Bool
has_text k [] = false
has_text k (r ∷ rs) = same r k || has_text k rs

-- The specs of the keys that are not revoked.
unfoldable pub unrevoked : List Text → List PeerSpec → List PeerSpec
unfolding has_text
unrevoked revoked [] = []
unrevoked revoked (s ∷ specs) =
    let rest = unrevoked revoked specs in if has_text s.key revoked then rest else s ∷ rest

abbrev pub reconnect_only : Text → PeerSpec
reconnect_only key = record { key = key; token = []; name = []; expose = none }

-- The specs of the stored sessions whose keys are neither revoked nor in the manifest.
unfoldable pub session_specs : List Text → List PeerSpec → List (Text × Text) → List PeerSpec
unfolding has_text names
session_specs revoked manifest [] = []
session_specs revoked manifest ((pin, secret) ∷ sessions) =
    let rest = session_specs revoked manifest sessions in
    if has_text pin revoked || names pin manifest then rest else reconnect_only pin ∷ rest

pub data Outcome : Type 0 where
  unreadable : Outcome
  too_many : ℕ → Outcome
  -- Two keys of one address.
  collision : Text → Text → Outcome
  assembled : List PeerSpec → Outcome

module _ (std : Stdlib) (codec : Codec) (texts : Texts) (encode_std : Text → Text) where
  -- The virtual address of the pin that a key encodes.
  unfoldable pub vip_of : Text → Text
  vip_of key = elim (decode_pub_key std codec texts key) [
    | none ↦ []
    | some pin ↦ 10 ∷ 66 ∷ host_bytes std codec texts (std.sha256 pin)
  ]

  -- The loop over the addresses: the first two keys of one address.
  unfoldable pub find_collision : List PeerSpec → Map Text Text → Option (Text × Text)
  unfolding vip_of
  find_collision [] vips = none
  find_collision (s ∷ specs) vips =
      let rest = find_collision specs (insert (vip_of s.key) s.key vips) in
      elim (lookup (vip_of s.key) vips) [ some existing ↦ some (existing, s.key) | none ↦ rest ]

  -- `assemblePeers`: each store is `none` if it cannot be read.
  unfoldable pub assemble_peers :
      Option (List PeerSpec) → Option (List Text) → Option (List (Text × Text)) → Outcome
  unfolding unrevoked session_specs find_collision
  assemble_peers none revoked sessions = unreadable
  assemble_peers (some manifest) none sessions = unreadable
  assemble_peers (some manifest) (some revoked) none = unreadable
  assemble_peers (some manifest) (some revoked) (some sessions) =
      let listed = unrevoked revoked manifest in
      let specs = listed ++ session_specs revoked listed sessions in
      if ltb max_buddies (length specs)
      then too_many (length specs)
      else elim (find_collision specs []) [
        | some (existing, key) ↦ collision existing key
        | none ↦ assembled specs
      ]

  unfoldable pub to_spec : ManifestBuddy → Option PeerSpec
  unfolding validate_buddy_name
  to_spec b = if same b.key [] then none else elim (decode_pub_key std codec texts b.key) [
    | none ↦ none
    | some pin ↦
        if not (same b.token []) && not (valid_field b.token)
        then none
        else if not (validate_buddy_name b.name)
        then none
        else some
            (record { key = encode_std pin; token = b.token; name = b.name; expose = b.expose })
  ]

  unfoldable pub to_manifest : PeerSpec → ManifestBuddy
  to_manifest s = record { name = s.name; key = s.key; token = s.token; expose = s.expose }

  -- The loop of `parseYAMLManifest`, with the specs so far; a key that comes twice is an error.
  unfoldable pub parse_buddies : List ManifestBuddy → List PeerSpec → Option (List PeerSpec)
  unfolding to_spec names
  parse_buddies [] specs = some specs
  parse_buddies (b ∷ buddies) specs = elim (to_spec b) [
    | none ↦ none
    | some s ↦ elim (names s.key specs) [
      | true ↦ none
      | false ↦ parse_buddies buddies (specs ++ s ∷ [])
    ]
  ]

  abbrev pub legacy_spec : Text → Text → PeerSpec
  legacy_spec pin token = record { key = encode_std pin; token = token; name = []; expose = none }

  -- A line of the old format: nothing, an error, or a spec.
  unfoldable pub legacy_line : List Text → Option (Option PeerSpec)
  legacy_line [] = some none
  legacy_line (key ∷ rest) = if is_comment key then some none else elim rest [
    | [] ↦ elim (decode_pub_key std codec texts key) [
      | none ↦ none
      | some pin ↦ some (some (legacy_spec pin []))
    ]
    | token ∷ more ↦ elim more [
      | [] ↦ elim (decode_pub_key std codec texts key) [
        | none ↦ none
        | some pin ↦ some (some (legacy_spec pin token))
      ]
      | extra ∷ others ↦ none
    ]
  ]

  unfoldable pub parse_legacy : List Text → List PeerSpec → Option (List PeerSpec)
  unfolding legacy_line names
  parse_legacy [] specs = some specs
  parse_legacy (l ∷ ls) specs =
      let skipped = parse_legacy ls specs in
      if not (leb (length l) max_line) then none else elim (legacy_line (fields (drop_cr l))) [
        | none ↦ none
        | some none ↦ skipped
        | some (some s) ↦ elim (names s.key specs) [
          | true ↦ none
          | false ↦ parse_legacy ls (specs ++ s ∷ [])
        ]
      ]

  unfoldable pub manifest_is_legacy : List Text → Bool
  manifest_is_legacy [] = false
  manifest_is_legacy (l ∷ ls) =
      let rest = manifest_is_legacy ls in
      if not (leb (length l) max_line) then false else elim (fields (drop_cr l)) [
        | [] ↦ rest
        | key ∷ others ↦
            if is_comment key then rest else is_some (decode_pub_key std codec texts key)
      ]
