-- ===== src/Trust/Revocations/Edits.antt =====
-- What adding a key to the list of revoked keys and lifting a revocation do to what is read back.
use buddynet.Support.{
  ◌≤◌, ◌≡◌, ◌≢◌, refl, sym, ap, ◌∙◌, inl, inr, Bool, true, false, not, ◌&&◌, ◌||◌, Option, none,
  some, List, [], ◌∷◌, ◌++◌, Text, text_dec, length, leb, All, if◌then◌else◌, arith, Bool-cases,
  Option-cases,
}
use buddynet.Support.Lines.{
  cons_first, lines, add_field, split_fields, fields, IsLine, lines-line, fields-append,
}
use buddynet.Ticket.{same}
use buddynet.Authz.{Found, absent, failed, present}
use buddynet.Authz.File.{updated, drop_cr, is_comment, max_line, number_sign}
use buddynet.Authz.File.Edits.{IsWord, fields-drop_cr}
use buddynet.Supervisor.Manifest.{has_text}
use buddynet.Trust.{revoked_in, is_revoked}
use buddynet.Trust.Revocations.{
  RevokedEntry, has_entry, without_entry, file_header, dated, entry_line, entry_lines, revoked_text,
  entries_in, load_revoked, add_revoked, remove_revoked, note_of,
}

abbrev keys_of : List RevokedEntry → List Text
keys_of [] = []
keys_of (e ∷ entries) = e.key ∷ keys_of entries

has_text-keys_of : (k : Text) (es : List RevokedEntry) → has_text k (keys_of es) ≡ has_entry k es
unfolding has_text has_entry
has_text-keys_of k [] = refl
has_text-keys_of k (e ∷ es) = ground (arith, has_text-keys_of k es)

keys_of-append :
    (es : List RevokedEntry) (e : RevokedEntry) → keys_of (es ++ e ∷ []) ≡ keys_of es ++ e.key ∷ []
keys_of-append [] e = refl
keys_of-append (d ∷ es) e = ap (◌∷◌ d.key) (keys_of-append es e)

has_text-append :
    (k r : Text) (rs : List Text) → has_text k (rs ++ r ∷ []) ≡ (has_text k rs || same r k)
unfolding has_text
has_text-append k r [] = ground arith
has_text-append k r (q ∷ rs) = ground (arith, has_text-append k r rs)

has_entry-append :
    (k : Text) (es : List RevokedEntry) (e : RevokedEntry)
    → has_entry k (es ++ e ∷ []) ≡ (has_entry k es || same e.key k)
unfolding has_entry
has_entry-append k [] e = ground arith
has_entry-append k (d ∷ es) e = ground (arith, has_entry-append k es e)

has_entry-without_entry :
    (k key : Text) (es : List RevokedEntry)
    → has_entry k (without_entry key es) ≡ (not (same key k) && has_entry k es)
unfolding has_entry without_entry
has_entry-without_entry k key [] = ground arith
has_entry-without_entry k key (e ∷ es) =
    let ih = has_entry-without_entry k key es in
    elim (text_dec e.key key) [
      | yes p ↦ elim (text_dec key k) [
        | yes q ↦ ground (arith, p, q, ih)
        | no q ↦ elim (text_dec e.key k) [
          | yes r ↦ absurd (q (sym p ∙ r))
          | no r ↦ ground (arith, p, q, r, ih)
        ]
      ]
      | no p ↦ elim (text_dec key k) [
        | yes q ↦ elim (text_dec e.key k) [
          | yes r ↦ absurd (p (r ∙ sym q))
          | no r ↦ ground (arith, p, q, r, ih)
        ]
        | no q ↦ ground (arith, p, q, ih)
      ]
    ]

abbrev keys_read : Option (List RevokedEntry) → Option (List Text)
keys_read none = none
keys_read (some es) = some (keys_of es)

abbrev asked : Text → Option (List Text) → Option Bool
asked k none = none
asked k (some keys) = some (has_text k keys)

module _ (decode : Text → Option Text) (encode : Text → Text) (token_key : Text → Text)
    (today : Text) where
  -- Both readers of the file take the same keys.
  revoked_in-entries_in :
      (ls : List Text) (es : List RevokedEntry)
      → revoked_in decode encode token_key ls (keys_of es)
        ≡ keys_read (entries_in decode encode ls es)
  unfolding revoked_in entries_in
  revoked_in-entries_in [] es = refl
  revoked_in-entries_in (l ∷ ls) es = elim (Bool-cases (leb (length l) max_line)) [
    | inr f ↦ rw (f, revoked_in, entries_in) refl
    | inl f ↦ go f (fields (drop_cr l)) refl (λ es'. revoked_in-entries_in ls es')
  ]
    where
      go :
          leb (length l) max_line ≡ true
          → (words : List Text) → fields (drop_cr l) ≡ words
          → ((es' : List RevokedEntry)
              → revoked_in decode encode token_key ls (keys_of es')
                ≡ keys_read (entries_in decode encode ls es'))
          → revoked_in decode encode token_key (l ∷ ls) (keys_of es)
            ≡ keys_read (entries_in decode encode (l ∷ ls) es)
      go f [] q ih = rw (f, q, revoked_in, entries_in) (ih es)
      go f (w ∷ ws) q ih = elim (Bool-cases (is_comment w)) [
        | inl c ↦ rw (f, q, c, revoked_in, entries_in) (ih es)
        | inr c ↦ elim (Option-cases (decode w)) [
          | inl d ↦ rw (f, q, c, d, revoked_in, entries_in) (ih es)
          | inr (pin, d) ↦
              let e : RevokedEntry = record { key = encode pin; note = note_of (drop_cr l) } in
              let t = has_text-keys_of (encode pin) es in
              elim (Bool-cases (has_entry (encode pin) es)) [
                | inl h ↦ rw (f, q, c, d, t ∙ h, h, revoked_in, entries_in) (ih es)
                | inr h ↦
                    rw (f, q, c, d, t ∙ h, h, revoked_in, entries_in)
                      (ap (revoked_in decode encode token_key ls) (sym (keys_of-append es e))
                        ∙ ih (es ++ e ∷ []))
              ]
        ]
      ]

  is_revoked-load_revoked :
      (file : Found Text) (es : List RevokedEntry) (k : Text)
      → load_revoked decode encode file ≡ some es
      → is_revoked decode encode token_key file k ≡ some (has_entry k es)
  unfolding is_revoked load_revoked has_entry
  is_revoked-load_revoked absent es k h = ground (arith, h)
  is_revoked-load_revoked failed es k h = absurd (ground (arith, h))
  is_revoked-load_revoked (present s) es k h =
      rw (revoked_in-entries_in (lines s) [] ∙ ap keys_read h, is_revoked)
        (ap some (has_text-keys_of k es))

  -- An entry whose line is read back: a key in its canonical form, without a newline in the line.
  pub record IsWritten (e : RevokedEntry) : Type 0 where
    pub pin : Text
    pub decodes : decode e.key ≡ some pin
    pub canonical : encode pin ≡ e.key
    pub word : IsWord e.key
    pub some_key : e.key ≢ []
    pub key : is_comment e.key ≡ false
    pub line : IsLine (entry_line today e)
    pub fits : length (entry_line today e) ≤ max_line

  first_field :
      (e : RevokedEntry)
      → IsWritten e
      → fields (drop_cr (entry_line today e))
        ≡ e.key ∷ fields (32 ∷ number_sign ∷ 32 ∷ (if same e.note [] then dated today else e.note))
  unfolding entry_line
  first_field e w = fields-drop_cr (entry_line today e) ∙ go e.key w.some_key w.word
    where
      go :
          (k : Text)
          → k ≢ []
          → IsWord k
          → fields
              (k ++ 32 ∷ 32 ∷ number_sign ∷ 32 ∷ (if same e.note [] then dated today else e.note))
            ≡ k ∷ fields (32 ∷ number_sign ∷ 32 ∷ (if same e.note [] then dated today else e.note))
      go [] h word = absurd (h refl)
      go (c ∷ k) h word =
          fields-append c k
            (32 ∷ number_sign ∷ 32 ∷ (if same e.note [] then dated today else e.note)) word

  -- The lines of the entries add their keys to those that are read before them.
  asked-entry_lines :
      (k : Text) (es : List RevokedEntry) (keys : List Text)
      → All IsWritten es
      → asked k (revoked_in decode encode token_key (lines (entry_lines today es)) keys)
        ≡ some (has_text k keys || has_entry k es)
  unfolding entry_lines lines revoked_in has_entry
  asked-entry_lines k [] keys h = ground arith
  asked-entry_lines k (e ∷ es) keys (w, h) =
      let first = first_field e w in
      let fits : leb (length (entry_line today e)) max_line ≡ true = ground (arith, w.fits) in
      let read = lines-line (entry_line today e) (entry_lines today es) w.line in
      elim (Bool-cases (has_text (encode w.pin) keys)) [
        | inl p ↦
            rw (read, fits, first, w.key, w.decodes, p, revoked_in)
              (asked-entry_lines k es keys h ∙ ap some (listed w p))
        | inr p ↦
            rw (read, fits, first, w.key, w.decodes, p, revoked_in)
              (asked-entry_lines k es (keys ++ encode w.pin ∷ []) h ∙ ap some (added w))
      ]
    where
      listed :
          (w : IsWritten e)
          → has_text (encode w.pin) keys ≡ true
          → (has_text k keys || has_entry k es) ≡ (has_text k keys || has_entry k (e ∷ es))
      listed w p = elim (text_dec e.key k) [
        | yes q ↦
            let t : has_text k keys ≡ true =
              ap (λ j. has_text j keys) (sym (w.canonical ∙ q)) ∙ p in
            rw t refl
        | no q ↦ ground (arith, q)
      ]

      added :
          (w : IsWritten e)
          → (has_text k (keys ++ encode w.pin ∷ []) || has_entry k es)
            ≡ (has_text k keys || has_entry k (e ∷ es))
      added w = ground (arith, has_text-append k (encode w.pin) keys, w.canonical)

  asked-is_revoked :
      (s k : Text)
      → is_revoked decode encode token_key (present s) k
        ≡ asked k (revoked_in decode encode token_key (lines s) [])
  unfolding is_revoked
  asked-is_revoked s k = elim (Option-cases (revoked_in decode encode token_key (lines s) [])) [
    | inl e ↦ rw (e, is_revoked) refl
    | inr (keys, e) ↦ rw (e, is_revoked) refl
  ]

  header_skipped :
      (rest : Text)
      → revoked_in decode encode token_key (lines (file_header ++ rest)) []
        ≡ revoked_in decode encode token_key (lines rest) []
  unfolding revoked_in lines cons_first fields split_fields add_field drop_cr
  header_skipped rest = refl

  is_revoked-revoked_text :
      (es : List RevokedEntry) (k : Text)
      → All IsWritten es
      → is_revoked decode encode token_key (present (revoked_text today es)) k
        ≡ some (has_entry k es)
  unfolding revoked_text has_text
  is_revoked-revoked_text es k h =
      asked-is_revoked (revoked_text today es) k
      ∙ ap (asked k) (header_skipped (entry_lines today es))
      ∙ asked-entry_lines k es [] h

  All-append :
      (es : List RevokedEntry) (e : RevokedEntry)
      → All IsWritten es
      → IsWritten e
      → All IsWritten (es ++ e ∷ [])
  All-append [] e h w = (w, tt)
  All-append (d ∷ es) e (v, h) w = (v, All-append es e h w)

  All-without_entry :
      (key : Text) (es : List RevokedEntry)
      → All IsWritten es
      → All IsWritten (without_entry key es)
  unfolding without_entry
  All-without_entry key [] h = tt
  All-without_entry key (e ∷ es) (w, h) = elim (Bool-cases (same e.key key)) [
    | inl p ↦ rw (p, without_entry) (All-without_entry key es h)
    | inr p ↦ rw (p, without_entry) (w, All-without_entry key es h)
  ]

  -- The revocation of a key is read back, and those of all other keys stay: after `add_revoked` on a
  -- list that can be read, a key is revoked exactly if it was or is the added one. The lines fit
  -- the scanner and their keys are canonical.
  pub is_revoked-add_revoked :
      (file : Found Text) (es : List RevokedEntry) (key k : Text)
      → load_revoked decode encode file ≡ some es
      → All IsWritten es
      → IsWritten (record { key = key; note = dated today })
      → is_revoked decode encode token_key
          (updated (add_revoked decode encode today file key) file)
          k
        ≡ some (same key k || has_entry k es)
  unfolding add_revoked updated
  is_revoked-add_revoked file es key k r h w = elim (Bool-cases (has_entry key es)) [
    | inl p ↦
        rw (r, p, add_revoked)
          (is_revoked-load_revoked file es k r ∙ ap some (listed (text_dec key k) p))
    | inr p ↦
        let e : RevokedEntry = record { key = key; note = dated today } in
        rw (r, p, add_revoked)
          (is_revoked-revoked_text (es ++ e ∷ []) k (All-append es e h w)
            ∙ ap some (ground (arith, has_entry-append k es e)))
  ]
    where
      listed :
          Dec (key ≡ k) → has_entry key es ≡ true → has_entry k es ≡ (same key k || has_entry k es)
      listed (yes q) p =
          let t : has_entry k es ≡ true = ap (λ j. has_entry j es) (sym q) ∙ p in
          rw t (ground arith)
      listed (no q) p = ground (arith, q)

  -- A revocation that is lifted is gone, and those of all other keys stay: after `remove_revoked`
  -- on a list that can be read, a key is revoked exactly if it was and is not the lifted one. Each
  -- entry is read back from the line that is written for it: its key is canonical and one word, and
  -- the line has no newline and at most 65,535 bytes.
  pub is_revoked-remove_revoked :
      (file : Found Text) (es : List RevokedEntry) (key k : Text)
      → load_revoked decode encode file ≡ some es
      → All IsWritten es
      → is_revoked decode encode token_key
          (updated (remove_revoked decode encode today file key) file)
          k
        ≡ some (not (same key k) && has_entry k es)
  unfolding remove_revoked updated
  is_revoked-remove_revoked file es key k r h = elim (Bool-cases (has_entry key es)) [
    | inr p ↦
        rw (r, p, remove_revoked)
          (is_revoked-load_revoked file es k r ∙ ap some (unlisted (text_dec key k) p))
    | inl p ↦
        rw (r, p, remove_revoked)
          (is_revoked-revoked_text (without_entry key es) k (All-without_entry key es h)
            ∙ ap some (has_entry-without_entry k key es))
  ]
    where
      unlisted :
          Dec (key ≡ k)
          → has_entry key es ≡ false
          → has_entry k es ≡ (not (same key k) && has_entry k es)
      unlisted (yes q) p =
          let t : has_entry k es ≡ false = ap (λ j. has_entry j es) (sym q) ∙ p in
          rw t (ground arith)
      unlisted (no q) p = ground (arith, q)
