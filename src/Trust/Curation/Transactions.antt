-- ===== src/Trust/Curation/Transactions.antt =====
-- What the transactions of internal/role/peerscmd.go leave behind, whichever of their writes take
-- effect.
use buddynet.Support.{
  ◌≡◌, ◌≢◌, ◌⊎◌, refl, sym, ap, ◌∙◌, inl, inr, Bool, true, false, ◌||◌, Option, some, List, [], ◌∷◌,
  ◌++◌, Text, All, arith, Bool-cases, Option-cases, leb, length,
}
use buddynet.Net.{Texts}
use buddynet.Ticket.{Stdlib, same}
use buddynet.Handshake.Admission.{Codec}
use buddynet.Authz.{Found, present}
use buddynet.Authz.File.{Update, refused, unchanged, written, updated}
use buddynet.Supervisor.{PeerSpec, names, max_buddies}
use buddynet.Trust.{TrustPolicy, peer_revoked, is_revoked, decide}
use buddynet.Trust.Sessions.{save_session}
use buddynet.Trust.Revocations.{
  RevokedEntry, has_entry, dated, load_revoked, add_revoked, remove_revoked,
}
use buddynet.Trust.Revocations.Edits.{IsWritten, is_revoked-add_revoked}
use buddynet.Trust.Curation.{
  Yaml, Files, Writes, Outcome, error, cleanup_failed, apply, max_manifest_bytes, load_peers_file,
  to_buddies, save_manifest, remove_manifest_entry, session_update, remove_locked, lift_locked,
  add_locked,
}
use buddynet.Trust.Curation

-- An update that takes effect leaves its file.
apply-updated :
    (ok : Bool) (u : Update) (file file' : Found Text)
    → apply ok u file ≡ some file'
    → updated u file ≡ file'
unfolding apply updated
apply-updated ok refused file file' h = cc
apply-updated ok unchanged file file' h = cc
apply-updated false (written s) file file' h = cc
apply-updated true (written s) file file' h = cc

module _ (std : Stdlib) (codec : Codec) (texts : Texts) (encode_std : Text → Text) (yaml : Yaml)
    (token_key : Text → Text) (header today : Text) where
  abbrev decode : Text → Option Text
  decode = Curation.decode std codec texts encode_std yaml token_key header today

  -- The transaction changes the revocations first: without an error it has written them.
  remove_locked-revocations :
      (f : Files) (key : Text) (w : Writes)
      → let out = remove_locked std codec texts encode_std yaml token_key header today f key w in
        ((out.0 ≡ f) × (out.1 ≡ error))
        ⊎ (out.0.revocations
            ≡ updated (add_revoked decode encode_std today f.revocations key) f.revocations)
  unfolding remove_locked
  remove_locked-revocations f key w =
      let u = add_revoked decode encode_std today f.revocations key in
      let v =
        session_update std codec texts encode_std yaml token_key header today f.has_store f.store
          key in
      let t =
        remove_manifest_entry std codec texts encode_std yaml token_key header today f.has_manifest
          f.manifest key in
      elim (Option-cases (apply w.revocations u f.revocations)) [
        | inl e ↦ inl (rw (e, remove_locked) (refl, refl))
        | inr (rv, e) ↦
            let done = sym (apply-updated w.revocations u f.revocations rv e) in
            elim (Option-cases (apply w.store v f.store)) [
              | inl g ↦ inr (rw (e, g, remove_locked) done)
              | inr (st, g) ↦ elim (Option-cases (apply w.manifest t f.manifest)) [
                | inl m ↦ inr (rw (e, g, m, remove_locked) done)
                | inr (mf, m) ↦ inr (rw (e, g, m, remove_locked) done)
              ]
            ]
      ]

  module _ (f : Files) (es : List RevokedEntry) (key : Text)
      (reads : load_revoked decode encode_std f.revocations ≡ some es)
      (kept : All (IsWritten decode encode_std token_key today) es)
      (new : IsWritten decode encode_std token_key today
        (record { key = key; note = dated today })) where
    -- Wherever a revocation breaks off, it has changed nothing or it is in effect: whichever writes
    -- of `PeersRemove` fail, either no file is changed and an error is returned, or the list of
    -- revoked keys has the key, and of the other keys those that it had. The list can be read, and
    -- its lines and the new one are read back.
    pub remove_locked-in_effect :
        (k : Text) (w : Writes)
        → let out = remove_locked std codec texts encode_std yaml token_key header today f key w in
          ((out.0 ≡ f) × (out.1 ≡ error))
          ⊎ (is_revoked decode encode_std token_key out.0.revocations k
              ≡ some (same key k || has_entry k es))
    remove_locked-in_effect k w = elim (remove_locked-revocations f key w) [
      | inl same_files ↦ inl same_files
      | inr e ↦ inr (
          ap (λ file. is_revoked decode encode_std token_key file k) e
          ∙ is_revoked-add_revoked decode encode_std token_key today f.revocations es key k reads
              kept new)
    ]

    -- A revocation that returns anything but a plain error binds: whichever of its writes failed,
    -- the buddy's key is not trusted with any token by a node that keeps a store, and no session is
    -- saved for it.
    pub remove_locked-refuses :
        (w : Writes) (t : TrustPolicy) (store : Found Text) (token partner secret : Text)
        (locked : Bool)
        → encode_std partner ≡ key
        → t.has_store ≡ true
        → let out = remove_locked std codec texts encode_std yaml token_key header today f key w in
          out.1 ≢ error
          → (decide decode encode_std token_key t out.0.revocations store token partner
              ≡ peer_revoked)
            × (save_session decode encode_std token_key locked out.0.revocations store token key
                  secret
                ≡ refused)
    unfolding decide save_session
    remove_locked-refuses w t store token partner secret locked q stored h =
        elim (remove_locked-in_effect key w) [
          | inl (files, e) ↦ absurd (h e)
          | inr e ↦
              let listed = e ∙ ap some (ground arith) in
              (rw (stored, q, listed, decide) refl, saved _ locked listed)
        ]
      where
        saved :
            (file : Found Text) (granted : Bool)
            → is_revoked decode encode_std token_key file key ≡ some true
            → save_session decode encode_std token_key granted file store token key secret ≡ refused
        saved file false e = refl
        saved file true e = rw (e, save_session) refl

  -- A manifest that is saved is the encoded list.
  apply-save_manifest :
      (ok : Bool) (specs : List PeerSpec) (file file' : Found Text)
      → apply ok (save_manifest std codec texts encode_std yaml token_key header today specs) file
        ≡ some file'
      → (body : Text) × (yaml.write
            (to_buddies std codec texts encode_std yaml token_key header today specs)
          ≡ some body)
        × (file' ≡ present (header ++ body))
  unfolding apply save_manifest
  apply-save_manifest ok specs file file' h =
      let buddies = to_buddies std codec texts encode_std yaml token_key header today specs in
      elim (Option-cases (yaml.write buddies)) [
        | inl e ↦ absurd (refuses ok (rw (e, save_manifest) at h))
        | inr (body, e) ↦ (body, e, writes ok body (rw (e, save_manifest) at h))
      ]
    where
      refuses : (ok : Bool) → apply ok refused file ≡ some file' → ⊥
      refuses ok h = cc

      writes :
          (ok : Bool) (body : Text)
          → apply ok (written (header ++ body)) file ≡ some file'
          → file' ≡ present (header ++ body)
      writes false body h = cc
      writes true body h = cc

  -- A buddy is never allowed again without being configured: whichever writes of `PeersAdd` fail,
  -- the revocations are as they were, or the manifest names the key already and is as it was, or the
  -- encoder took the list of the manifest's buddies with the new one at its end, and the manifest is
  -- the header and its text. The manifest can be read.
  pub add_locked-configured :
      (f : Files) (spec : PeerSpec) (existing : List PeerSpec) (w : Writes)
      → load_peers_file std codec texts encode_std yaml token_key header today f.has_manifest
          f.manifest
        ≡ some existing
      → let out = add_locked std codec texts encode_std yaml token_key header today f spec w in
        let buddies =
          to_buddies std codec texts encode_std yaml token_key header today
            (existing ++ spec ∷ []) in
        (out.0.revocations ≡ f.revocations)
        ⊎ (((names spec.key existing ≡ true) × (out.0.manifest ≡ f.manifest))
            ⊎ ((body : Text) × (yaml.write buddies ≡ some body)
                × (out.0.manifest ≡ present (header ++ body))))
  unfolding add_locked lift_locked
  add_locked-configured f spec existing w r =
      let saved =
        save_manifest std codec texts encode_std yaml token_key header today
          (existing ++ spec ∷ []) in
      let lifted = remove_revoked decode encode_std today f.revocations spec.key in
      elim (Option-cases (load_revoked decode encode_std f.revocations)) [
        | inl e ↦ inl (rw (r, e, add_locked) refl)
        | inr (entries, e) ↦ elim (Bool-cases (names spec.key existing)) [
          | inl n ↦ elim (Bool-cases (has_entry spec.key entries)) [
            | inr h ↦ inl (rw (r, e, n, h, add_locked) refl)
            | inl h ↦ elim (Option-cases (apply w.revocations lifted f.revocations)) [
              | inl a ↦ inl (rw (r, e, n, h, a, add_locked, lift_locked) refl)
              | inr (rv, a) ↦ inr (inl (n, rw (r, e, n, h, a, add_locked, lift_locked) refl))
            ]
          ]
          | inr n ↦ elim (Bool-cases (leb max_buddies (length existing))) [
            | inl b ↦ inl (rw (r, e, n, b, add_locked) refl)
            | inr b ↦ elim (Option-cases (apply w.manifest saved f.manifest)) [
              | inl m ↦ inl (rw (r, e, n, b, m, add_locked) refl)
              | inr (mf, m) ↦
                  let (body, encoded, done) =
                    apply-save_manifest w.manifest (existing ++ spec ∷ []) f.manifest mf m in
                  elim (Bool-cases (has_entry spec.key entries)) [
                    | inr h ↦ inl (rw (r, e, n, b, m, h, add_locked, lift_locked) refl)
                    | inl h ↦ elim (Option-cases (apply w.revocations lifted f.revocations)) [
                      | inl a ↦ inl (rw (r, e, n, b, m, h, a, add_locked, lift_locked) refl)
                      | inr (rv, a) ↦ inr (
                          inr
                            (body, encoded, rw (r, e, n, b, m, h, a, add_locked, lift_locked) done))
                    ]
                  ]
            ]
          ]
        ]
      ]
