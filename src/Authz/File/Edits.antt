-- ===== src/Authz/File/Edits.antt =====
-- The approve and revoke commands of internal/role/authz.go against the keys the server reads.
use buddynet.Support.{
  ℕ, ◌≤◌, ◌<◌, ◌≡◌, ◌≢◌, refl, sym, ap, subst, ◌∙◌, inl, inr, true, false, none, some, List, [],
  ◌∷◌, ◌++◌, Text, text_key, text_dec, Map, lookup, insert, delete, length, arith, Bool-cases,
  Option-cases, leb, ◌==◌, All, lookup-insert, delete_absent, length-delete-le,
}
use buddynet.Support.Lines.{
  newline, lines, fields, split_fields, add_field, unlines, is_space, IsEnded, IsLine, lines-append,
  lines-unlines, lines-IsLine, fields_word, fields-append, lines-line,
}
use mathlib.Core.List.{append_assoc}
use buddynet.Ticket.{same}
use buddynet.Handshake.Admission.{Codec}
use buddynet.Authz.{present}
use buddynet.Authz.File.{
  max_authorized_keys, max_line, drop_cr, join, is_comment, valid_pub_key, read_line, read_lines,
  read_authorized, approval, approve_key, is_field, revoke_lines, ended, revoke_key, updated,
}

-- A carriage return is no part of a field.
split_fields-drop_cr : (t : Text) → split_fields (drop_cr t) ≡ split_fields t
unfolding split_fields drop_cr add_field
split_fields-drop_cr [] = refl
split_fields-drop_cr (c ∷ []) = elim (Bool-cases (c == 13)) [
  | inl e ↦ let f : c ≡ 13 = ground arith in rw f refl
  | inr e ↦ rw (e, drop_cr) refl
]
split_fields-drop_cr (c ∷ d ∷ t) = rw (split_fields-drop_cr (d ∷ t)) refl

pub fields-drop_cr : (l : Text) → fields (drop_cr l) ≡ fields l
unfolding fields
fields-drop_cr l = rw (split_fields-drop_cr l) refl

length-drop_cr-le : (l : Text) → length (drop_cr l) ≤ length l
unfolding drop_cr
length-drop_cr-le [] = omega arith
length-drop_cr-le (c ∷ []) = ground arith
length-drop_cr-le (c ∷ d ∷ l) = omega (arith, length-drop_cr-le (d ∷ l))

drop_cr-IsLine : (l : Text) → IsLine l → IsLine (drop_cr l)
unfolding drop_cr
drop_cr-IsLine [] h = tt
drop_cr-IsLine (c ∷ []) h = elim (Bool-cases (c == 13)) [
  | inl e ↦ rw (e, drop_cr) tt
  | inr e ↦ rw (e, drop_cr) h
]
drop_cr-IsLine (c ∷ d ∷ l) h = (h.0, drop_cr-IsLine (d ∷ l) h.1)

delete-insert_same :
    (a : Text) (v : Text) (m : Map Text Text) → delete a (insert a v m) ≡ delete a m
unfolding insert delete
delete-insert_same a v [] = ground arith
delete-insert_same a v ((b, w) ∷ m) = ground (arith, delete-insert_same a v m)

delete-insert_other :
    (a b : Text) (v : Text) (m : Map Text Text)
    → b ≢ a
    → delete a (insert b v m) ≡ insert b v (delete a m)
unfolding insert delete
delete-insert_other a b v [] h = ground arith
delete-insert_other a b v ((c, w) ∷ m) h = ground (arith, delete-insert_other a b v m h)

join-unlines :
    (l : Text) (ls : List Text) → join newline (l ∷ ls) ++ newline ∷ [] ≡ unlines (l ∷ ls)
unfolding join unlines
join-unlines l [] = refl
join-unlines l (m ∷ ms) =
    append_assoc l (newline ∷ join newline (m ∷ ms)) (newline ∷ [])
    ∙ ap (λ t. l ++ newline ∷ t) (join-unlines m ms)

revoke_lines-IsLine :
    (key : Text) (ls kept : List Text) (n : ℕ)
    → revoke_lines key ls ≡ some (kept, n)
    → All IsLine ls
    → All IsLine kept
unfolding revoke_lines
revoke_lines-IsLine key [] kept n r all =
    let e : kept ≡ [] = ground arith in subst (All IsLine) (sym e) tt
revoke_lines-IsLine key (l ∷ ls) kept n r (line, all) = elim (Option-cases (revoke_lines key ls)) [
  | inl q ↦ absurd (ground arith)
  | inr ((kept', m), q) ↦
      let ih = revoke_lines-IsLine key ls kept' m q all in
      elim (Bool-cases (is_field key (fields (drop_cr l)))) [
        | inl f ↦ let e : kept ≡ kept' = ground arith in subst (All IsLine) (sym e) ih
        | inr f ↦
            let e : kept ≡ drop_cr l ∷ kept' = ground arith in
            subst (All IsLine) (sym e) (drop_cr-IsLine l line, ih)
      ]
]

abbrev pub IsWord : Text → Type 0
IsWord w = All (λ c. is_space c ≡ false) w

module _ (codec : Codec) where
  if_labelled : (key label : Text) → label ≢ [] → approval codec key label ≡ key ++ 32 ∷ label
  unfolding approval
  if_labelled key label h = ground (arith, h)

  after_line : Text → Map Text Text → Map Text Text
  after_line l keys = read_line codec (fields (drop_cr l)) keys

  -- A line that is read, and does not fill the keys.
  record Reads (l : Text) (ls : List Text) (keys keys' : Map Text Text) : Type 0 where
    fits : leb (length l) max_line ≡ true
    room : leb max_authorized_keys (length (after_line l keys)) ≡ false
    rest : read_lines codec ls (after_line l keys) ≡ some keys'

  read_lines-Reads :
      (l : Text) (ls : List Text) (keys keys' : Map Text Text)
      → read_lines codec (l ∷ ls) keys ≡ some keys'
      → length keys' < max_authorized_keys
      → Reads l ls keys keys'
  unfolding read_lines after_line
  read_lines-Reads l ls keys keys' h few = elim (Bool-cases (leb (length l) max_line)) [
    | inr e ↦ absurd (ground arith)
    | inl e ↦
        elim (Bool-cases
          (leb max_authorized_keys (length (read_line codec (fields (drop_cr l)) keys)))) [
            | inl f ↦ absurd (ground arith)
            | inr f ↦ record { fits = e; room = f; rest = rw (e, f, read_lines) at h }
          ]
  ]

  read_lines-step :
      (l : Text) (ls : List Text) (keys : Map Text Text)
      → leb (length l) max_line ≡ true
      → length (after_line l keys) < max_authorized_keys
      → read_lines codec (l ∷ ls) keys ≡ read_lines codec ls (after_line l keys)
  unfolding read_lines after_line
  read_lines-step l ls keys e f = ground arith

  -- Lines that do not fill the keys are read before those that follow.
  read_lines-append :
      (ls ms : List Text) (keys keys' : Map Text Text)
      → read_lines codec ls keys ≡ some keys'
      → length keys' < max_authorized_keys
      → read_lines codec (ls ++ ms) keys ≡ read_lines codec ms keys'
  unfolding read_lines
  read_lines-append [] ms keys keys' h few = ground arith
  read_lines-append (l ∷ ls) ms keys keys' h few =
      let r = read_lines-Reads l ls keys keys' h few in
      read_lines-step l (ls ++ ms) keys r.fits (ground (arith, r.room))
      ∙ read_lines-append ls ms (after_line l keys) keys' r.rest few

  read_line-delete :
      (key : Text) (ws : List Text) (keys : Map Text Text)
      → is_field key ws ≡ false
      → read_line codec ws (delete key keys) ≡ delete key (read_line codec ws keys)
  unfolding read_line
  read_line-delete key [] keys h = refl
  read_line-delete key (w ∷ ws) keys h = ground (arith, delete-insert_other key w (join 32 ws) keys)

  delete-read_line :
      (key : Text) (ws : List Text) (keys : Map Text Text)
      → is_field key ws ≡ true
      → delete key (read_line codec ws keys) ≡ delete key keys
  unfolding read_line
  delete-read_line key [] keys h = refl
  delete-read_line key (w ∷ ws) keys h = ground (arith, delete-insert_same w (join 32 ws) keys)

  again :
      (key l : Text) (keys : Map Text Text)
      → is_field key (fields (drop_cr l)) ≡ false
      → after_line (drop_cr l) (delete key keys) ≡ delete key (after_line l keys)
  unfolding after_line
  again key l keys h =
      rw (fields-drop_cr (drop_cr l)) (read_line-delete key (fields (drop_cr l)) keys h)

  -- The lines that a revocation keeps are read as the keys without the one revoked.
  read_lines-revoke_lines :
      (key : Text) (ls kept : List Text) (removed : ℕ) (keys keys' : Map Text Text)
      → revoke_lines key ls ≡ some (kept, removed)
      → read_lines codec ls keys ≡ some keys'
      → length keys' < max_authorized_keys
      → read_lines codec kept (delete key keys) ≡ some (delete key keys')
  unfolding read_lines revoke_lines after_line
  read_lines-revoke_lines key [] kept removed keys keys' r h few = ground arith
  read_lines-revoke_lines key (l ∷ ls) kept removed keys keys' r h few =
      let d = read_lines-Reads l ls keys keys' h few in
      let ih = λ (kept' : List Text) (n : ℕ) (q : revoke_lines key ls ≡ some (kept', n)).
        read_lines-revoke_lines key ls kept' n (after_line l keys) keys' q d.rest few in
      elim (Option-cases (revoke_lines key ls)) [
        | inl q ↦ absurd (ground arith)
        | inr ((kept', n), q) ↦ elim (Bool-cases (is_field key (fields (drop_cr l)))) [
          | inl f ↦
              let e : kept ≡ kept' = ground arith in
              rw (e, sym (delete-read_line key (fields (drop_cr l)) keys f)) (ih kept' n q)
          | inr f ↦
              let e : kept ≡ drop_cr l ∷ kept' = ground arith in
              rw e (
                read_lines-step (drop_cr l) kept' (delete key keys)
                  (ground (arith, d.fits, length-drop_cr-le l))
                  (rw (again key l keys f)
                    (ground (arith, d.room, length-delete-le key (after_line l keys))))
                ∙ rw (again key l keys f) (ih kept' n q))
        ]
      ]

  -- A file whose lines can be read can be revoked from.
  revoke_lines-runs :
      (key : Text) (ls : List Text) (keys keys' : Map Text Text)
      → read_lines codec ls keys ≡ some keys'
      → length keys' < max_authorized_keys
      → revoke_lines key ls ≢ none
  unfolding revoke_lines
  revoke_lines-runs key [] keys keys' h few = ground arith
  revoke_lines-runs key (l ∷ ls) keys keys' h few =
      let d = read_lines-Reads l ls keys keys' h few in
      let ih = revoke_lines-runs key ls (after_line l keys) keys' d.rest few in
      elim (Option-cases (revoke_lines key ls)) [
        | inl q ↦ absurd (ih q)
        | inr ((kept, n), q) ↦ ground (arith, d.fits, q)
      ]

  lookup-read_line :
      (key : Text) (ws : List Text) (keys : Map Text Text)
      → is_field key ws ≡ false
      → lookup key keys ≡ none
      → lookup key (read_line codec ws keys) ≡ none
  unfolding read_line
  lookup-read_line key [] keys f h = h
  lookup-read_line key (w ∷ ws) keys f h = ground (arith, lookup-insert w key (join 32 ws) keys)

  -- Lines of which none goes do not name the key.
  lookup-unrevoked :
      (key : Text) (ls kept : List Text) (keys keys' : Map Text Text)
      → revoke_lines key ls ≡ some (kept, 0)
      → read_lines codec ls keys ≡ some keys'
      → length keys' < max_authorized_keys
      → lookup key keys ≡ none
      → lookup key keys' ≡ none
  unfolding revoke_lines read_lines after_line
  lookup-unrevoked key [] kept keys keys' r h few out = ground arith
  lookup-unrevoked key (l ∷ ls) kept keys keys' r h few out =
      let d = read_lines-Reads l ls keys keys' h few in
      elim (Option-cases (revoke_lines key ls)) [
        | inl q ↦ absurd (ground (arith, d.fits))
        | inr ((kept', n), q) ↦ elim (Bool-cases (is_field key (fields (drop_cr l)))) [
          | inl f ↦ absurd (ground (arith, d.fits))
          | inr f ↦
              let e : n ≡ 0 = ground (arith, d.fits) in
              lookup-unrevoked key ls kept' (after_line l keys) keys' (rw (← e) q) d.rest few
                ((lookup-read_line key (fields (drop_cr l)) keys f out))
        ]
      ]

  -- The kept lines are what is read of the file that is written.
  lines-ended :
      (l : Text) (ls : List Text)
      → All IsLine (l ∷ ls)
      → same (join newline (l ∷ ls)) [] ≡ false
      → lines (ended (join newline (l ∷ ls))) ≡ l ∷ ls
  unfolding ended
  lines-ended l ls all e = rw (e, ended, join-unlines l ls, lines-unlines (l ∷ ls) all) refl

  read_lines-ended :
      (ls : List Text) (keys : Map Text Text)
      → All IsLine ls
      → read_lines codec (lines (ended (join newline ls))) keys ≡ read_lines codec ls keys
  unfolding join ended lines read_lines drop_cr fields split_fields add_field
  read_lines-ended [] keys all = ground arith
  read_lines-ended ([] ∷ []) keys all = ground arith
  read_lines-ended ((c ∷ l) ∷ []) keys all =
      ap (λ t. read_lines codec t keys) (lines-ended (c ∷ l) [] all (ground arith))
  read_lines-ended ([] ∷ m ∷ ls) keys all =
      ap (λ t. read_lines codec t keys) (lines-ended [] (m ∷ ls) all (ground arith))
  read_lines-ended ((c ∷ l) ∷ m ∷ ls) keys all =
      ap (λ t. read_lines codec t keys) (lines-ended (c ∷ l) (m ∷ ls) all (ground arith))

  present_lines :
      (s : Text) (keys : Map Text Text)
      → read_authorized codec (present s) ≡ present keys
      → read_lines codec (lines s) [] ≡ some keys
  unfolding read_authorized
  present_lines s keys h = ground (arith, h)

  lines_present :
      (s : Text) (keys : Map Text Text)
      → read_lines codec (lines s) [] ≡ some keys
      → read_authorized codec (present s) ≡ present keys
  unfolding read_authorized
  lines_present s keys h = ground (arith, h)

  fields-approval :
      (key label : Text)
      → IsWord key
      → key ≢ []
      → fields (approval codec key label) ≡ key ∷ fields label
  unfolding approval fields text_dec
  fields-approval [] label word some_key = absurd (some_key refl)
  fields-approval (c ∷ key) label word some_key = elim (text_dec label []) [
    | yes e ↦ rw e (fields_word c key word ∙ ap (◌∷◌ (c ∷ key)) (ground arith))
    | no e ↦ rw (if_labelled (c ∷ key) label e) (fields-append c key label word)
  ]

  read_one :
      (l : Text) (keys : Map Text Text)
      → length l ≤ max_line
      → read_lines codec (l ∷ []) keys ≡ some (read_line codec (fields (drop_cr l)) keys)
  unfolding read_lines
  read_one l keys fits = ground arith

  lines_one : (l : Text) → IsLine l → lines (l ++ newline ∷ []) ≡ l ∷ []
  unfolding lines
  lines_one l line = lines-line l [] line

  read_line-insert :
      (key : Text) (label : List Text) (keys : Map Text Text)
      → is_comment key ≡ false
      → valid_pub_key codec key ≡ true
      → read_line codec (key ∷ label) keys ≡ insert key (join 32 label) keys
  unfolding read_line
  read_line-insert key label keys plain valid = rw (plain, valid) refl

  -- To approve a valid key that the allowlist does not have, where the allowlist can be read, has
  -- fewer than 1,024 keys and its last line is ended, leaves a file of which the server reads the
  -- same keys and labels and that key, with the words of the label. The key and the label have no
  -- newline, the key has no white space and begins no comment, and the line fits the scanner.
  pub approve_key-insert :
      (s key label : Text) (keys : Map Text Text)
      → read_authorized codec (present s) ≡ present keys
      → length keys < max_authorized_keys
      → IsEnded s
      → valid_pub_key codec key ≡ true
      → IsWord key
      → key ≢ []
      → is_comment key ≡ false
      → IsLine (approval codec key label)
      → length (approval codec key label) ≤ max_line
      → lookup key keys ≡ none
      → read_authorized codec (updated (approve_key codec true (present s) key label) (present s))
        ≡ present (insert key (join 32 (fields label)) keys)
  unfolding approve_key updated
  approve_key-insert s key label keys h few at_end valid word some_key plain line fits fresh =
      let l = approval codec key label in
      let out = s ++ (l ++ newline ∷ []) in
      let writes : updated (approve_key codec true (present s) key label) (present s)
          ≡ present out =
        rw (valid, h, fresh, approve_key) refl in
      let reads : read_lines codec (lines out) []
          ≡ some (insert key (join 32 (fields label)) keys) =
        ap (λ ls. read_lines codec ls [])
          (lines-append s (l ++ newline ∷ []) at_end ∙ ap (◌++◌ (lines s)) (lines_one l line))
        ∙ read_lines-append (lines s) (l ∷ []) [] keys (present_lines s keys h) few
        ∙ read_one l keys fits
        ∙ ap some (
            ap (λ ws. read_line codec ws keys)
              (fields-drop_cr l ∙ fields-approval key label word some_key)
            ∙ read_line-insert key (fields label) keys plain valid) in
      ap (read_authorized codec) writes ∙ lines_present out _ reads

  -- To revoke a key from an allowlist that can be read, with fewer than 1,024 keys, leaves a file
  -- of which the server reads the same keys and labels but that one.
  pub revoke_key-delete :
      (s key : Text) (keys : Map Text Text)
      → read_authorized codec (present s) ≡ present keys
      → length keys < max_authorized_keys
      → read_authorized codec (updated (revoke_key true (present s) key) (present s))
        ≡ present (delete key keys)
  unfolding revoke_key updated lookup delete
  revoke_key-delete s key keys h few =
      let g = present_lines s keys h in
      elim (Option-cases (revoke_lines key (lines s))) [
        | inl q ↦ absurd (revoke_lines-runs key (lines s) [] keys g few q)
        | inr ((kept, n), q) ↦ elim (Bool-cases (n == 0)) [
          | inl e ↦
              let z : revoke_lines key (lines s) ≡ some (kept, 0) = ground arith in
              let out = lookup-unrevoked key (lines s) kept [] keys z g few (ground arith) in
              let stays : updated (revoke_key true (present s) key) (present s) ≡ present s =
                rw (q, e, revoke_key) refl in
              ap (read_authorized codec) stays ∙ h ∙ ap present (sym (delete_absent key keys out))
          | inr e ↦
              let lined = revoke_lines-IsLine key (lines s) kept n q (lines-IsLine s) in
              let kept_keys : read_lines codec kept [] ≡ some (delete key keys) =
                subst (λ m. read_lines codec kept m ≡ some (delete key keys)) (ground arith)
                  (read_lines-revoke_lines key (lines s) kept n [] keys q g few) in
              let writes : updated (revoke_key true (present s) key) (present s)
                  ≡ present (ended (join newline kept)) =
                rw (q, e, revoke_key) refl in
              ap (read_authorized codec) writes
              ∙ lines_present (ended (join newline kept)) (delete key keys)
                  (read_lines-ended kept [] lined ∙ kept_keys)
        ]
      ]
