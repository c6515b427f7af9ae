-- ===== src/Trust/Curation/Tokens.antt =====
-- The bootstrap token that `PeersAdd` of internal/role/peerscmd.go writes and that
-- internal/role/peersfile.go then reads.
use buddynet.Support.{
  ◌≡◌, refl, ap, ◌∙◌, inl, inr, true, false, Option, none, some, List, [], ◌∷◌, ◌++◌, Text, arith,
  Bool-cases, Option-cases, leb, ltb, length,
}
use buddynet.Support.Lines.{lines}
use buddynet.Net.{Texts}
use buddynet.Ticket.{Stdlib, same}
use buddynet.Handshake.Names.{valid_field}
use buddynet.Handshake.Admission.{Codec, decode_pub_key}
use buddynet.Authz.{present}
use buddynet.Authz.File.{written}
use buddynet.Scope.{Scope}
use buddynet.Supervisor.{PeerSpec, names, max_buddies}
use buddynet.Supervisor.Manifest.{
  ManifestBuddy, validate_buddy_name, to_spec, to_manifest, parse_buddies, manifest_is_legacy,
}
use buddynet.Trust.Revocations.{RevokedEntry, has_entry, load_revoked}
use buddynet.Trust.Curation.{
  Yaml, Files, Writes, added, apply, has_blank, max_manifest_bytes, decode, load_peers_file,
  manifest_needs_migration, to_buddies, save_manifest, is_locked, lift_locked, add_locked,
  peers_add,
}

module _ (std : Stdlib) (codec : Codec) (texts : Texts) (encode_std : Text → Text) (yaml : Yaml)
    (token_key : Text → Text) (header today : Text) where
  to_spec_bad_token :
      (s : PeerSpec)
      → same s.token [] ≡ false
      → valid_field s.token ≡ false
      → to_spec std codec texts encode_std (to_manifest std codec texts encode_std s) ≡ none
  unfolding to_spec to_manifest
  to_spec_bad_token s some_token bad = elim (Bool-cases (same s.key [])) [
    | inl e ↦ rw (e, to_spec) refl
    | inr e ↦ elim (Option-cases (decode_pub_key std codec texts s.key)) [
      | inl d ↦ rw (e, d, to_spec) refl
      | inr (pin, d) ↦ rw (e, d, some_token, bad, to_spec) refl
    ]
  ]

  parse_buddies-append :
      (bs : List ManifestBuddy) (b : ManifestBuddy) (specs : List PeerSpec)
      → to_spec std codec texts encode_std b ≡ none
      → parse_buddies std codec texts encode_std (bs ++ b ∷ []) specs ≡ none
  unfolding parse_buddies
  parse_buddies-append [] b specs h = rw (h, parse_buddies) refl
  parse_buddies-append (c ∷ bs) b specs h =
      elim (Option-cases (to_spec std codec texts encode_std c)) [
        | inl e ↦ rw (e, parse_buddies) refl
        | inr (s, e) ↦ elim (Bool-cases (names s.key specs)) [
          | inl n ↦ rw (e, n, parse_buddies) refl
          | inr n ↦ rw (e, n, parse_buddies) (parse_buddies-append bs b (specs ++ s ∷ []) h)
        ]
      ]

  to_buddies-append :
      (specs : List PeerSpec) (s : PeerSpec)
      → to_buddies std codec texts encode_std yaml token_key header today (specs ++ s ∷ [])
        ≡ to_buddies std codec texts encode_std yaml token_key header today specs
          ++ to_manifest std codec texts encode_std s ∷ []
  to_buddies-append [] s = refl
  to_buddies-append (t ∷ specs) s =
      ap (◌∷◌ (to_manifest std codec texts encode_std t)) (to_buddies-append specs s)

  adds :
      (f : Files) (spec : PeerSpec) (s : Text) (existing : List PeerSpec)
      (entries : List RevokedEntry) (w : Writes)
      → load_peers_file std codec texts encode_std yaml token_key header today f.has_manifest
          f.manifest
        ≡ some existing
      → load_revoked
          (decode std codec texts encode_std yaml token_key header today)
          encode_std
          f.revocations
        ≡ some entries
      → has_entry spec.key entries ≡ false
      → names spec.key existing ≡ false
      → leb max_buddies (length existing) ≡ false
      → save_manifest std codec texts encode_std yaml token_key header today (existing ++ spec ∷ [])
        ≡ written s
      → w.manifest ≡ true
      → add_locked std codec texts encode_std yaml token_key header today f spec w
        ≡ (record f { manifest = present s }, added)
  unfolding add_locked lift_locked apply
  adds f spec s existing entries w loads reads unlisted unnamed room saves ok =
      rw (loads, reads, unnamed, room, saves, ok, add_locked, apply, lift_locked, unlisted) refl

  taken :
      (f : Files) (key pin token name : Text) (expose : Option Scope) (w : Writes)
      → f.has_manifest ≡ true
      → decode std codec texts encode_std yaml token_key header today key ≡ some pin
      → has_blank token ≡ false
      → validate_buddy_name name ≡ true
      → manifest_needs_migration std codec texts encode_std yaml token_key header today f.manifest
        ≡ some false
      → peers_add std codec texts encode_std yaml token_key header today f key token name
          (some expose)
          true
          w
        ≡ add_locked std codec texts encode_std yaml token_key header today f
            (record { key = encode_std pin; token = token; name = name; expose = expose })
            w
  unfolding peers_add
  taken f key pin token name expose w given d blank named migrated =
      let locked : is_locked std codec texts encode_std yaml token_key header today f true ≡ true =
        ground (arith, given) in
      rw (d, blank, named, migrated, locked, peers_add) (simp given)

  -- `PeersAdd` takes a bootstrap token that the reader of the manifest refuses, and the command
  -- reports success: a token that is not empty and has no blank, but is no valid field, leaves a
  -- manifest that cannot be read any more, with every buddy in it.
  pub peers_add-unreadable :
      (f : Files) (key pin token name s : Text) (expose : Option Scope) (existing : List PeerSpec)
      (entries : List RevokedEntry) (w : Writes)
      → let spec : PeerSpec = record {
        key = encode_std pin;
        token = token;
        name = name;
        expose = expose;
      } in
        let load = load_peers_file std codec texts encode_std yaml token_key header today in
        f.has_manifest ≡ true
        → decode std codec texts encode_std yaml token_key header today key ≡ some pin
        → has_blank token ≡ false
        → same token [] ≡ false
        → valid_field token ≡ false
        → validate_buddy_name name ≡ true
        → manifest_needs_migration std codec texts encode_std yaml token_key header today f.manifest
          ≡ some false
        → load f.has_manifest f.manifest ≡ some existing
        → load_revoked
            (decode std codec texts encode_std yaml token_key header today)
            encode_std
            f.revocations
          ≡ some entries
        → has_entry spec.key entries ≡ false
        → names spec.key existing ≡ false
        → leb max_buddies (length existing) ≡ false
        → save_manifest std codec texts encode_std yaml token_key header today
            (existing ++ spec ∷ [])
          ≡ written s
        → ltb max_manifest_bytes (length s) ≡ false
        → manifest_is_legacy std codec texts encode_std (lines s) ≡ false
        → yaml.read s
          ≡ some (
              to_buddies std codec texts encode_std yaml token_key header today
                (existing ++ spec ∷ []))
        → w.manifest ≡ true
        → let out =
            peers_add std codec texts encode_std yaml token_key header today f key token name
              (some expose)
              true
              w in
          (out.1 ≡ added) × (load true out.0.manifest ≡ none)
  unfolding load_peers_file
  peers_add-unreadable f key pin token name s expose existing entries w given d blank some_token bad
        named migrated loads reads unlisted unnamed room saves small modern parses ok =
      let spec : PeerSpec = record {
        key = encode_std pin;
        token = token;
        name = name;
        expose = expose;
      } in
      let refuses =
        ap (λ bs. parse_buddies std codec texts encode_std bs []) (to_buddies-append existing spec)
        ∙ parse_buddies-append
            (to_buddies std codec texts encode_std yaml token_key header today existing)
            (to_manifest std codec texts encode_std spec) []
            (to_spec_bad_token spec some_token bad) in
      let unreadable : load_peers_file std codec texts encode_std yaml token_key header today true
            (present s)
          ≡ none =
        rw (small, modern, parses, load_peers_file) refuses in
      let out =
        taken f key pin token name expose w given d blank named migrated
        ∙ adds f spec s existing entries w loads reads unlisted unnamed room saves ok in
      (
        ap (λ o. o.1) out,
        ap
              (λ o.
                load_peers_file std codec texts encode_std yaml token_key header today true
                  o.0.manifest)
              out
            ∙ unreadable,
      )
