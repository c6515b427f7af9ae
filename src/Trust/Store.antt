-- ===== src/Trust/Store.antt =====
-- What internal/role/trust.go learns, and what it then decides.
use buddynet.Support.{
  ◌≤◌, ◌≡◌, ◌≢◌, ◌⊎◌, refl, sym, ap, subst, ◌∙◌, inl, inr, true, false, Option, none, some, List,
  [], ◌∷◌, ◌++◌, Text, text_dec, length, if◌then◌else◌, arith, Bool-cases, Option-cases, leb,
}
use mathlib.Core.List.{append_assoc}
use buddynet.Support.Lines.{
  newline, lines, fields, IsLine, lines-append, lines-line, lines-newline, ends_line,
  ends_line-IsEnded, newline-IsEnded, fields_word, fields-append,
}
use buddynet.Ticket.{same}
use buddynet.Authz.{Found, absent, failed, present}
use buddynet.Authz.File.{updated, drop_cr, max_line}
use buddynet.Authz.File.Edits.{IsWord, fields-drop_cr}
use buddynet.Trust.{
  TrustPolicy, trusted, needs_sas, key_changed, entry_of, known_in, load_known_peer, is_revoked,
  decide_unrevoked, decide, learned, learn_peer, confirm, contents,
}

-- Lines that have no entry of a token are passed over.
known_in-append :
    (key : Text) (ls ms : List Text)
    → known_in key ls ≡ some none
    → known_in key (ls ++ ms) ≡ known_in key ms
unfolding known_in
known_in-append key [] ms h = refl
known_in-append key (l ∷ ls) ms h = elim (Bool-cases (leb (length l) max_line)) [
  | inr e ↦ absurd (ground (arith, h))
  | inl e ↦ elim (Option-cases (entry_of key (fields (drop_cr l)))) [
    | inr (v, f) ↦ absurd (ground (arith, h))
    | inl f ↦ rw (e, f, known_in) (known_in-append key ls ms (ground (arith, h)))
  ]
]

-- A new line for one token is not read for another.
known_in-other :
    (key : Text) (ls : List Text) (l : Text)
    → leb (length l) max_line ≡ true
    → entry_of key (fields (drop_cr l)) ≡ none
    → known_in key (ls ++ l ∷ []) ≡ known_in key ls
unfolding known_in
known_in-other key [] l fits e = ground (arith, e)
known_in-other key (k ∷ ls) l fits e = ground (arith, known_in-other key ls l fits e)

module _ (decode : Text → Option Text) (encode : Text → Text) (token_key : Text → Text) where
  -- A line of the store that is read back: two words, without a newline, that fit the scanner.
  pub record IsEntry (key b64 : Text) : Type 0 where
    pub key_word : IsWord key
    pub some_key : key ≢ []
    pub b64_word : IsWord b64
    pub some_b64 : b64 ≢ []
    pub line : IsLine (key ++ 32 ∷ b64)
    pub fits : length (key ++ 32 ∷ b64) ≤ max_line

  entry_line : Text → Text → Text
  entry_line key b64 = key ++ 32 ∷ b64

  fields-entry_line :
      (key b64 : Text) → IsEntry key b64 → fields (drop_cr (entry_line key b64)) ≡ key ∷ b64 ∷ []
  unfolding entry_line
  fields-entry_line [] b64 r = absurd (r.some_key refl)
  fields-entry_line (c ∷ key) [] r = absurd (r.some_b64 refl)
  fields-entry_line (c ∷ key) (d ∷ b64) r =
      fields-drop_cr ((c ∷ key) ++ 32 ∷ d ∷ b64)
      ∙ fields-append c key (d ∷ b64) r.key_word
      ∙ ap (◌∷◌ (c ∷ key)) (fields_word d b64 r.b64_word)

  lines-learned :
      (s key b64 : Text)
      → IsEntry key b64
      → lines (learned decode encode token_key s key b64) ≡ lines s ++ entry_line key b64 ∷ []
  unfolding learned entry_line lines
  lines-learned s key b64 r =
      let l = key ++ 32 ∷ b64 in
      let tail : lines (key ++ 32 ∷ (b64 ++ newline ∷ [])) ≡ l ∷ [] =
        ap lines (sym (append_assoc key (32 ∷ b64) (newline ∷ []))) ∙ lines-line l [] r.line in
      elim (Bool-cases (ends_line s)) [
        | inl e ↦
            rw (e, learned)
              (lines-append s (key ++ 32 ∷ (b64 ++ newline ∷ [])) (ends_line-IsEnded s e)
                ∙ ap (◌++◌ (lines s)) tail)
        | inr e ↦
            rw (e, learned)
              (lines-append (s ++ newline ∷ []) (key ++ 32 ∷ (b64 ++ newline ∷ []))
                  (newline-IsEnded s)
                ∙ ap (λ ls. ls ++ lines (key ++ 32 ∷ (b64 ++ newline ∷ []))) (lines-newline s e)
                ∙ ap (◌++◌ (lines s)) tail)
      ]

  known_in-one :
      (k key b64 : Text)
      → IsEntry key b64
      → known_in k (entry_line key b64 ∷ []) ≡ some (if same key k then some b64 else none)
  unfolding known_in entry_of entry_line
  known_in-one k key b64 r =
      let e : fields (drop_cr (key ++ 32 ∷ b64)) ≡ key ∷ b64 ∷ [] = fields-entry_line key b64 r in
      ground (arith, e, r.fits)

  known_in-learned :
      (s key b64 : Text)
      → IsEntry key b64
      → known_in key (lines s) ≡ some none
      → known_in key (lines (learned decode encode token_key s key b64)) ≡ some (some b64)
  known_in-learned s key b64 r h =
      ap (known_in key) (lines-learned s key b64 r)
      ∙ known_in-append key (lines s) (entry_line key b64 ∷ []) h
      ∙ known_in-one key key b64 r
      ∙ ground arith

  -- What a decision for the SAS tells.
  record IsFirst (t : TrustPolicy) (revocations store : Found Text) (token partner : Text)
      : Type 0 where
    allowed : is_revoked decode encode token_key revocations (encode partner) ≡ some false
    unknown : load_known_peer store (token_key token) ≡ some none

  decide-IsFirst :
      (t : TrustPolicy) (revocations store : Found Text) (token partner : Text)
      → t.has_store ≡ true
      → decide decode encode token_key t revocations store token partner ≡ needs_sas
      → IsFirst t revocations store token partner
  unfolding decide decide_unrevoked
  decide-IsFirst t revocations store token partner stored h =
      elim (Option-cases (is_revoked decode encode token_key revocations (encode partner))) [
        | inl e ↦ absurd (ground (arith, h, e, stored))
        | inr (b, e) ↦ elim (Bool-cases b) [
          | inl f ↦ absurd (ground (arith, h, e, f, stored))
          | inr f ↦ elim (Option-cases t.pinned) [
            | inr (p, g) ↦ absurd (ground (arith, h, e, f, g, stored))
            | inl g ↦ elim (Option-cases (load_known_peer store (token_key token))) [
              | inl k ↦ absurd (ground (arith, h, e, f, g, k, stored))
              | inr (o, k) ↦ elim (Option-cases o) [
                | inr (v, q) ↦ absurd (ground (arith, h, e, f, g, k, q, stored))
                | inl q ↦ record { allowed = ground (arith, e, f); unknown = ground (arith, k, q) }
              ]
            ]
          ]
        ]
      ]

  confirmed :
      (t : TrustPolicy) (revocations : Found Text) (s token partner other : Text)
      (store : Found Text)
      → t.pinned ≡ none
      → t.insecure ≡ false
      → t.has_store ≡ true
      → contents decode encode token_key store ≡ some s
      → is_revoked decode encode token_key revocations (encode partner) ≡ some false
      → updated (confirm decode encode token_key t true revocations store token partner) store
        ≡ present (learned decode encode token_key s (token_key token) (encode partner))
  unfolding confirm learn_peer updated
  confirmed t revocations s token partner other store p i stored c free =
      rw (p, i, stored, free, c, confirm, learn_peer) refl

  unknown_in :
      (store : Found Text) (s key : Text)
      → contents decode encode token_key store ≡ some s
      → load_known_peer store key ≡ some none
      → known_in key (lines s) ≡ some none
  unfolding load_known_peer lines known_in
  unknown_in absent s key c h = let e : s ≡ [] = ground (arith, c) in rw e refl
  unknown_in failed s key c h = absurd (ground (arith, c))
  unknown_in (present s') s key c h =
      let e : s' ≡ s = ground (arith, c) in subst (λ t. known_in key (lines t) ≡ some none) e h

  found :
      (s key b64 : Text)
      → IsEntry key b64
      → known_in key (lines s) ≡ some none
      → load_known_peer (present (learned decode encode token_key s key b64)) key ≡ some (some b64)
  unfolding load_known_peer
  found s key b64 r h = known_in-learned s key b64 r h

  decided :
      (t : TrustPolicy) (revocations store : Found Text) (token other b64 : Text)
      → t.pinned ≡ none
      → t.insecure ≡ false
      → t.has_store ≡ true
      → is_revoked decode encode token_key revocations (encode other) ≡ some false
      → load_known_peer store (token_key token) ≡ some (some b64)
      → decide decode encode token_key t revocations store token other
        ≡ (if same b64 (encode other) then trusted else key_changed)
  unfolding decide decide_unrevoked
  decided t revocations store token other b64 p i stored free known =
      elim (Bool-cases (same b64 (encode other))) [
        | inl e ↦ rw (stored, free, p, i, known, e, decide, decide_unrevoked) refl
        | inr e ↦ rw (stored, free, p, i, known, e, decide, decide_unrevoked) refl
      ]

  -- The key that a human confirms is the one that is trusted for the token from then on: once the
  -- first contact has been confirmed and the store can be written, the same key is trusted without
  -- the SAS, and any other key that is not revoked is refused as a changed one. The entry is two
  -- words that fit the scanner.
  pub decide-confirm :
      (t : TrustPolicy) (revocations store : Found Text) (s token partner other : Text)
      → t.pinned ≡ none
      → t.insecure ≡ false
      → t.has_store ≡ true
      → contents decode encode token_key store ≡ some s
      → decide decode encode token_key t revocations store token partner ≡ needs_sas
      → is_revoked decode encode token_key revocations (encode other) ≡ some false
      → IsEntry (token_key token) (encode partner)
      → let store' =
          updated (confirm decode encode token_key t true revocations store token partner) store in
        decide decode encode token_key t revocations store' token other
        ≡ (if same (encode partner) (encode other) then trusted else key_changed)
  decide-confirm t revocations store s token partner other p i stored c h free r =
      let first = decide-IsFirst t revocations store token partner stored h in
      let key = token_key token in
      let store' = present (learned decode encode token_key s key (encode partner)) in
      let known : known_in key (lines s) ≡ some none = unknown_in store s key c first.unknown in
      let now_known : load_known_peer store' key ≡ some (some (encode partner)) =
        found s key (encode partner) r known in
      ap (λ f. decide decode encode token_key t revocations f token other)
        (confirmed t revocations s token partner other store p i stored c first.allowed)
      ∙ decided t revocations store' token other (encode partner) p i stored free now_known

  sources :
      (t : TrustPolicy) (store : Found Text) (token partner : Text)
      → decide_unrevoked decode encode token_key t store token partner ≡ trusted
      → (t.pinned ≡ some partner)
        ⊎ ((t.insecure ≡ true)
            ⊎ (load_known_peer store (token_key token) ≡ some (some (encode partner))))
  unfolding decide_unrevoked
  sources t store token partner h = elim (Option-cases t.pinned) [
    | inr (pin, p) ↦ elim (text_dec partner pin) [
      | yes e ↦ inl (p ∙ ap some (sym e))
      | no e ↦ absurd (ground (arith, h, p, e))
    ]
    | inl p ↦ elim (Bool-cases t.insecure) [
      | inl i ↦ inr (inl i)
      | inr i ↦ elim (Option-cases (load_known_peer store (token_key token))) [
        | inl k ↦ absurd (ground (arith, h, p, i, k))
        | inr (o, k) ↦ elim (Option-cases o) [
          | inl q ↦ absurd (ground (arith, h, p, i, k, q))
          | inr (v, q) ↦ elim (text_dec v (encode partner)) [
            | yes e ↦ inr (inr (k ∙ ap some (q ∙ ap some e)))
            | no e ↦ absurd (ground (arith, h, p, i, k, q, e))
          ]
        ]
      ]
    ]
  ]

  -- A partner is trusted without the SAS only if its key is not revoked, or there is no store to
  -- keep revocations beside, and if it is the pinned key, the lab flag is set, or the store has it
  -- for the token.
  pub decide-trusted :
      (t : TrustPolicy) (revocations store : Found Text) (token partner : Text)
      → decide decode encode token_key t revocations store token partner ≡ trusted
      → ((t.has_store ≡ false)
          ⊎ (is_revoked decode encode token_key revocations (encode partner) ≡ some false))
        × ((t.pinned ≡ some partner)
            ⊎ ((t.insecure ≡ true)
                ⊎ (load_known_peer store (token_key token) ≡ some (some (encode partner)))))
  unfolding decide
  decide-trusted t revocations store token partner h = elim (Bool-cases t.has_store) [
    | inr f ↦ (inl f, sources t store token partner (rw (f, decide) at h))
    | inl f ↦
        elim (Option-cases (is_revoked decode encode token_key revocations (encode partner))) [
          | inl e ↦ absurd (ground (arith, h, e, f))
          | inr (b, e) ↦ elim (Bool-cases b) [
            | inl g ↦ absurd (ground (arith, h, e, f, g))
            | inr g ↦ (
              inr (ground (arith, e, g)),
              sources t store token partner (ground (arith, h, e, f, g)),
            )
          ]
        ]
  ]
