-- ===== src/Trust/Curation.antt =====
-- The commands of internal/role/peerscmd.go that change this node's trust, and the manifest file of
-- internal/role/peersfile.go as they read and write it. A file that is written atomically has its
-- new contents or, where the write fails or the process ends before it, its old ones: `Writes` says
-- which writes take effect. The YAML encoder is outside, and the lock that is not granted is `false`.
pub mod Transactions
pub mod References
pub mod Tokens
mod Tests
use buddynet.Support.{
  ℕ, suc, ◌+◌, ◌==◌, Bool, true, false, not, ◌&&◌, ◌||◌, Option, none, some, List, [], ◌∷◌, ◌++◌,
  Text, codes, length, leb, ltb, if◌then◌else◌,
}
use buddynet.Support.Lines.{newline, lines}
use buddynet.Net.{Texts}
use buddynet.Ticket.{Stdlib, same}
use buddynet.Handshake.Admission.{Codec, decode_pub_key}
use buddynet.Authz.{Found, absent, failed, present}
use buddynet.Authz.File.{Update, refused, unchanged, written}
use buddynet.Scope.{Scope}
use buddynet.Supervisor.{PeerSpec, max_buddies, names}
use buddynet.Supervisor.Manifest.{
  ManifestBuddy, validate_buddy_name, has_text, to_manifest, parse_buddies, parse_legacy,
  manifest_is_legacy,
}
use buddynet.Trust.Sessions.{remove_session, load_sessions}
use buddynet.Trust.Revocations.{RevokedEntry, has_entry, load_revoked, add_revoked, remove_revoked}

-- yaml.v3
pub record Yaml : Type 0 where
  pub read : Text → Option (List ManifestBuddy)
  pub write : List ManifestBuddy → Option Text

-- The files of the trust state; the first two fields are whether --known-peers and --peers-file are
-- given. The list of revoked keys stands beside the first of the two that is.
pub record Files : Type 0 where
  pub has_store : Bool
  pub has_manifest : Bool
  pub revocations : Found Text
  pub store : Found Text
  pub manifest : Found Text

-- Whether the writes of the revocations, the sessions and the manifest take effect.
pub record Writes : Type 0 where
  pub revocations : Bool
  pub store : Bool
  pub manifest : Bool

pub data Outcome : Type 0 where
  error : Outcome
  -- The error that says that the revocation is in effect already.
  cleanup_failed : Outcome
  already_revoked : Outcome
  revoked : Outcome
  already_listed : Outcome
  added : Outcome
  allowed_again : Outcome
  not_revoked : Outcome

-- The file after an update; `none` is an error.
unfoldable pub apply : Bool → Update → Found Text → Option (Found Text)
apply ok refused file = none
apply ok unchanged file = some file
apply false (written s) file = none
apply true (written s) file = some (present s)

abbrev pub is_unchanged : Update → Bool
is_unchanged refused = false
is_unchanged unchanged = true
is_unchanged (written s) = false

abbrev pub max_manifest_bytes : ℕ
max_manifest_bytes = 1_048_576

-- `strings.ContainsAny(token, " \t")`
unfoldable pub has_blank : Text → Bool
has_blank [] = false
has_blank (c ∷ s) = c == 32 || c == 9 || has_blank s

-- The specs of other keys, as `removeManifestEntryLocked` keeps them.
unfoldable pub without_spec : Text → List PeerSpec → List PeerSpec
without_spec key [] = []
without_spec key (s ∷ specs) =
    let kept = without_spec key specs in if same s.key key then kept else s ∷ kept

-- strings.HasPrefix
unfoldable pub has_prefix : Text → Text → Bool
has_prefix s [] = true
has_prefix [] (d ∷ p) = false
has_prefix (c ∷ s) (d ∷ p) = let rest = has_prefix s p in if c == d then rest else false

-- A set of texts, as a list without repeats.
unfoldable pub include : List Text → List Text → List Text
unfolding has_text
include [] known = known
include (k ∷ keys) known = include keys (if has_text k known then known else k ∷ known)

unfoldable pub matching : Text → List Text → List Text
unfolding has_prefix
matching ref [] = []
matching ref (k ∷ known) =
    let rest = matching ref known in if has_prefix k ref then k ∷ rest else rest

abbrev pub only : List Text → Option Text
only [] = none
only (k ∷ []) = some k
only (k ∷ l ∷ keys) = none

abbrev pub keys_of_specs : List PeerSpec → List Text
keys_of_specs [] = []
keys_of_specs (s ∷ specs) = s.key ∷ keys_of_specs specs

abbrev pub keys_of_sessions : List (Text × Text) → List Text
keys_of_sessions [] = []
keys_of_sessions ((key, secret) ∷ sessions) = key ∷ keys_of_sessions sessions

abbrev pub keys_of_entries : List RevokedEntry → List Text
keys_of_entries [] = []
keys_of_entries (e ∷ entries) = e.key ∷ keys_of_entries entries

module _ (std : Stdlib) (codec : Codec) (texts : Texts) (encode_std : Text → Text) (yaml : Yaml)
    (token_key : Text → Text) (header today : Text) where
  abbrev pub decode : Text → Option Text
  decode = decode_pub_key std codec texts

  -- Reading the manifest: what is absent or not given has no specs.
  unfoldable pub load_peers_file : Bool → Found Text → Option (List PeerSpec)
  load_peers_file false file = some []
  load_peers_file true absent = some []
  load_peers_file true failed = none
  load_peers_file true (present s) =
      if ltb max_manifest_bytes (length s)
      then none
      else if manifest_is_legacy std codec texts encode_std (lines s)
      then parse_legacy std codec texts encode_std (lines s) []
      else elim (yaml.read s) [
        | none ↦ none
        | some buddies ↦ parse_buddies std codec texts encode_std buddies []
      ]

  unfoldable pub manifest_needs_migration : Found Text → Option Bool
  manifest_needs_migration absent = some false
  manifest_needs_migration failed = none
  manifest_needs_migration (present s) =
      if ltb max_manifest_bytes (length s)
      then none
      else some (manifest_is_legacy std codec texts encode_std (lines s))

  abbrev pub to_buddies : List PeerSpec → List ManifestBuddy
  to_buddies [] = []
  to_buddies (s ∷ specs) = to_manifest std codec texts encode_std s ∷ to_buddies specs

  -- What `saveManifestLocked` writes.
  unfoldable pub save_manifest : List PeerSpec → Update
  save_manifest specs = elim (yaml.write (to_buddies specs)) [
    | none ↦ refused
    | some body ↦ written (header ++ body)
  ]

  unfoldable pub remove_manifest_entry : Bool → Found Text → Text → Update
  unfolding save_manifest without_spec
  remove_manifest_entry false file key = unchanged
  remove_manifest_entry true file key = elim (manifest_needs_migration file) [
    | none ↦ refused
    | some true ↦ refused
    | some false ↦ elim (load_peers_file true file) [
      | none ↦ refused
      | some specs ↦
          if not (names key specs) then unchanged else save_manifest (without_spec key specs)
    ]
  ]

  unfoldable pub session_update : Bool → Found Text → Text → Update
  session_update false store key = unchanged
  session_update true store key = remove_session true store key

  -- `trustLockPath` and `acquireLock`.
  abbrev pub is_locked : Files → Bool → Bool
  is_locked f granted = (f.has_store || f.has_manifest) && granted

  -- The transaction of `PeersRemove`: the revocation first, then the session, then the manifest.
  unfoldable pub remove_locked : Files → Text → Writes → Files × Outcome
  remove_locked f key w =
      let u = add_revoked decode encode_std today f.revocations key in
      elim (apply w.revocations u f.revocations) [
        | none ↦ (f, error)
        | some revocations ↦
            let f₁ = record f { revocations = revocations } in
            let v = session_update f₁.has_store f₁.store key in
            elim (apply w.store v f₁.store) [
              | none ↦ (f₁, cleanup_failed)
              | some store ↦
                  let f₂ = record f₁ { store = store } in
                  let t = remove_manifest_entry f₂.has_manifest f₂.manifest key in
                  elim (apply w.manifest t f₂.manifest) [
                    | none ↦ (f₂, cleanup_failed)
                    | some manifest ↦ (
                      record f₂ { manifest = manifest },
                      (if is_unchanged t && is_unchanged v && is_unchanged u
                          then already_revoked
                          else revoked),
                    )
                  ]
            ]
      ]

  -- The keys of the manifest, of the stored sessions and of the list of revoked keys.
  unfoldable pub known_keys : Files → Option (List Text)
  known_keys f = elim (load_peers_file f.has_manifest f.manifest) [
    | none ↦ none
    | some specs ↦
        elim (if f.has_store then load_sessions decode encode_std token_key f.store else some []) [
          | none ↦ none
          | some sessions ↦ elim (load_revoked decode encode_std f.revocations) [
            | none ↦ none
            | some entries ↦
                some (keys_of_specs specs ++ keys_of_sessions sessions ++ keys_of_entries entries)
          ]
        ]
  ]

  -- `resolveKeyRef`: a whole key, or a prefix that one known key alone has.
  unfoldable pub resolve_key_ref : Files → Text → Option Text
  resolve_key_ref f ref = elim (decode ref) [
    | some pin ↦ some (encode_std pin)
    | none ↦ elim (known_keys f) [ none ↦ none | some keys ↦ only (matching ref (include keys [])) ]
  ]

  unfoldable pub peers_remove : Files → Text → Bool → Writes → Files × Outcome
  peers_remove f ref granted w = elim (resolve_key_ref f ref) [
    | none ↦ (f, error)
    | some key ↦ if not (is_locked f granted) then (f, error) else remove_locked f key w
  ]

  -- Lifts a revocation, and nothing else.
  unfoldable pub peers_allow : Files → Text → Bool → Writes → Files × Outcome
  peers_allow f ref granted w = elim (resolve_key_ref f ref) [
    | none ↦ (f, error)
    | some key ↦
        if not (is_locked f granted)
        then (f, error)
        else (let u = remove_revoked decode encode_std today f.revocations key in
            elim (apply w.revocations u f.revocations) [
              | none ↦ (f, error)
              | some revocations ↦ (
                record f { revocations = revocations },
                (if is_unchanged u then not_revoked else allowed_again),
              )
            ])
  ]

  -- The end of the transaction of `PeersAdd`: the manifest has the key, and a revocation is lifted.
  unfoldable pub lift_locked : Files → Text → Bool → Writes → Files × Outcome
  lift_locked f key was_revoked w =
      if was_revoked
      then elim (apply w.revocations (remove_revoked decode encode_std today f.revocations key)
          f.revocations) [
            | none ↦ (f, error)
            | some revocations ↦ (record f { revocations = revocations }, allowed_again)
          ]
      else (f, added)

  unfoldable pub add_locked : Files → PeerSpec → Writes → Files × Outcome
  add_locked f spec w = elim (load_peers_file f.has_manifest f.manifest) [
    | none ↦ (f, error)
    | some existing ↦ elim (load_revoked decode encode_std f.revocations) [
      | none ↦ (f, error)
      | some entries ↦
          let was_revoked = has_entry spec.key entries in
          if names spec.key existing
          then (if not was_revoked
              then (f, already_listed)
              else lift_locked f spec.key was_revoked w)
          else if leb max_buddies (length existing)
          then (f, error)
          else elim (apply w.manifest (save_manifest (existing ++ spec ∷ [])) f.manifest) [
            | none ↦ (f, error)
            | some manifest ↦ lift_locked (record f { manifest = manifest }) spec.key was_revoked w
          ]
    ]
  ]

  -- `scope` is what nft.ParseScope makes of --expose, or `none` if it is an error.
  unfoldable pub peers_add :
      Files → Text → Text → Text → Option (Option Scope) → Bool → Writes → Files × Outcome
  peers_add f key token name scope granted w =
      if not f.has_manifest then (f, error) else elim (decode key) [
        | none ↦ (f, error)
        | some pin ↦
            if has_blank token
            then (f, error)
            else if not (validate_buddy_name name)
            then (f, error)
            else elim scope [
              | none ↦ (f, error)
              | some expose ↦ elim (manifest_needs_migration f.manifest) [
                | none ↦ (f, error)
                | some true ↦ (f, error)
                | some false ↦
                    if not (is_locked f granted)
                    then (f, error)
                    else add_locked f
                        (record {
                          key = encode_std pin;
                          token = token;
                          name = name;
                          expose = expose;
                        })
                        w
              ]
            ]
      ]

  -- `PeersMigrate`: the old file is kept aside, and the specs are written as YAML. `backed_up` is
  -- whether the write of the copy takes effect.
  unfoldable pub peers_migrate : Files → Bool → Bool → Writes → Files × Option (Found Text)
  peers_migrate f backed_up granted w =
      if not f.has_manifest then (f, none) else elim (manifest_needs_migration f.manifest) [
        | none ↦ (f, none)
        | some false ↦ (f, none)
        | some true ↦ elim (load_peers_file true f.manifest) [
          | none ↦ (f, none)
          | some specs ↦
              if not backed_up
              then (f, none)
              else if not (is_locked f granted)
              then (f, some f.manifest)
              else elim (apply w.manifest (save_manifest specs) f.manifest) [
                | none ↦ (f, some f.manifest)
                | some manifest ↦ (record f { manifest = manifest }, some f.manifest)
              ]
        ]
      ]
