-- ===== src/Trust/Revocations.antt =====
-- The list of revoked keys of internal/role/trustlock.go as it is read with its notes and written.
-- `is_revoked` of the parent reads its keys. `today` is the date in a new note.
pub mod Edits
use buddynet.Support.{
  ℕ, ◌==◌, Bool, true, false, not, ◌&&◌, Option, none, some, List, [], ◌∷◌, ◌++◌, Text, codes,
  length, leb, if◌then◌else◌,
}
use buddynet.Support.Lines.{newline, lines, fields, is_space}
use buddynet.Ticket.{same}
use buddynet.Scope.{trim}
use buddynet.Authz.{Found, absent, failed, present}
use buddynet.Authz.File.{
  Update, refused, unchanged, written, drop_cr, is_comment, max_line, number_sign,
}

-- `revokedEntry`
pub record RevokedEntry : Type 0 where
  pub key : Text
  pub note : Text

-- What follows the first number sign of a line, trimmed.
unfoldable pub note_of : Text → Text
note_of [] = []
note_of (c ∷ s) = if c == number_sign then trim s else note_of s

unfoldable pub has_entry : Text → List RevokedEntry → Bool
has_entry key [] = false
has_entry key (e ∷ entries) = if same e.key key then true else has_entry key entries

-- The entries of other keys, as `removeRevokedLocked` keeps them.
unfoldable pub without_entry : Text → List RevokedEntry → List RevokedEntry
without_entry key [] = []
without_entry key (e ∷ entries) =
    let kept = without_entry key entries in if same e.key key then kept else e ∷ kept

abbrev pub file_header : Text
file_header =
    codes "# BuddyNet revoked buddy keys "
    ++ (226 ∷ 128 ∷ 148 ∷ codes " the presence of a key IS the revocation.")
    ++ newline ∷ (codes "# Lift one with:  buddynet peers allow <key>" ++ newline ∷ [])

abbrev pub dated : Text → Text
dated today = codes "revoked " ++ today

-- The line of an entry, without its newline.
unfoldable pub entry_line : Text → RevokedEntry → Text
entry_line today e =
    e.key ++ 32 ∷ 32 ∷ number_sign ∷ 32 ∷ (if same e.note [] then dated today else e.note)

unfoldable pub entry_lines : Text → List RevokedEntry → Text
unfolding entry_line
entry_lines today [] = []
entry_lines today (e ∷ entries) = entry_line today e ++ newline ∷ entry_lines today entries

-- `writeRevokedLocked`
unfoldable pub revoked_text : Text → List RevokedEntry → Text
unfolding entry_lines
revoked_text today entries = file_header ++ entry_lines today entries

module _ (decode : Text → Option Text) (encode : Text → Text) where
  -- The loop of `loadRevokedLocked`, with the entries so far.
  unfoldable pub entries_in : List Text → List RevokedEntry → Option (List RevokedEntry)
  unfolding has_entry note_of
  entries_in [] entries = some entries
  entries_in (l ∷ ls) entries =
      let skipped = entries_in ls entries in
      if not (leb (length l) max_line) then none else elim (fields (drop_cr l)) [
        | [] ↦ skipped
        | w ∷ ws ↦ if is_comment w then skipped else elim (decode w) [
          | none ↦ skipped
          | some pin ↦ elim (has_entry (encode pin) entries) [
            | true ↦ skipped
            | false ↦
                entries_in ls
                  (entries ++ record { key = encode pin; note = note_of (drop_cr l) } ∷ [])
          ]
        ]
      ]

  unfoldable pub load_revoked : Found Text → Option (List RevokedEntry)
  unfolding entries_in lines
  load_revoked absent = some []
  load_revoked failed = none
  load_revoked (present s) = entries_in (lines s) []

  -- `unchanged` is the key that is listed already.
  unfoldable pub add_revoked : Text → Found Text → Text → Update
  unfolding load_revoked revoked_text has_entry
  add_revoked today file key = elim (load_revoked file) [
    | none ↦ refused
    | some entries ↦
        if has_entry key entries
        then unchanged
        else written (revoked_text today (entries ++ record { key = key; note = dated today } ∷ []))
  ]

  -- `unchanged` is the key that is not listed.
  unfoldable pub remove_revoked : Text → Found Text → Text → Update
  unfolding load_revoked revoked_text has_entry without_entry
  remove_revoked today file key = elim (load_revoked file) [
    | none ↦ refused
    | some entries ↦
        if not (has_entry key entries)
        then unchanged
        else written (revoked_text today (without_entry key entries))
  ]
