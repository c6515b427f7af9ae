-- ===== src/Authz/File.antt =====
-- internal/role/authz.go: the allowlist file, read by the server and rewritten by the approve and
-- revoke commands. The bytes of the file are a text; a lock that is not granted is `false`. The
-- fields of a line are those of the trimmed line: none for a blank one, and a comment begins with
-- its first field. The white space is that of ASCII.
pub mod Edits
use buddynet.Support.{
  ℕ, ◌+◌, Bool, true, false, not, Option, none, some, List, [], ◌∷◌, ◌++◌, Text, text_key, Map,
  lookup, insert, length, leb, ◌==◌, if◌then◌else◌, is_some,
}
use buddynet.Support.Lines.{newline, lines, fields}
use buddynet.Ticket.{same, public_key_size, has_length}
use buddynet.Handshake.Admission.{Codec}
use buddynet.Authz.{Found, absent, failed, present}

abbrev pub max_authorized_keys : ℕ
max_authorized_keys = 1_024

-- A line that bufio.Scanner reads is shorter than its largest token.
abbrev pub max_line : ℕ
max_line = 65_535

abbrev pub number_sign : ℕ
number_sign = 35

-- A carriage return at the end of a line is no part of it.
unfoldable pub drop_cr : Text → Text
drop_cr [] = []
drop_cr (c ∷ []) = if c == 13 then [] else c ∷ []
drop_cr (c ∷ d ∷ l) = c ∷ drop_cr (d ∷ l)

-- strings.Join with a separator of one byte.
unfoldable pub join : ℕ → List Text → Text
join sep [] = []
join sep (w ∷ []) = w
join sep (w ∷ v ∷ ws) = w ++ sep ∷ join sep (v ∷ ws)

abbrev pub is_comment : Text → Bool
is_comment [] = false
is_comment (c ∷ w) = c == number_sign

-- What is to be written, if anything.
pub data Update : Type 0 where
  refused : Update
  unchanged : Update
  written : Text → Update

module _ (codec : Codec) where
  unfoldable pub valid_pub_key : Text → Bool
  valid_pub_key b64 = has_length public_key_size (codec.decode_std b64)

  -- The keys with one more line; the line is none of the file's keys, or its key and label.
  unfoldable pub read_line : List Text → Map Text Text → Map Text Text
  unfolding valid_pub_key
  read_line [] keys = keys
  read_line (key ∷ label) keys =
      if is_comment key
      then keys
      else if not (valid_pub_key key)
      then keys
      else insert key (join 32 label) keys

  -- The loop of `readAuthorized`: it ends at the line that makes the keys too many, and fails at a
  -- line that is too long. After a line that is skipped the keys are too few for the test.
  unfoldable pub read_lines : List Text → Map Text Text → Option (Map Text Text)
  unfolding read_line
  read_lines [] keys = some keys
  read_lines (l ∷ ls) keys =
      let next = read_line (fields (drop_cr l)) keys in
      let rest = read_lines ls next in
      if not (leb (length l) max_line)
      then none
      else if leb max_authorized_keys (length next)
      then some next
      else rest

  unfoldable pub read_authorized : Found Text → Found (Map Text Text)
  unfolding read_lines lines
  read_authorized absent = absent
  read_authorized failed = failed
  read_authorized (present s) = elim (read_lines (lines s) []) [
    | none ↦ failed
    | some keys ↦ present keys
  ]

  -- The line that is appended.
  unfoldable pub approval : Text → Text → Text
  approval key label = if not (same label []) then key ++ 32 ∷ label else key

  -- The text of a file that `approve_key` appends to.
  abbrev pub before : Found Text → Text
  before absent = []
  before failed = []
  before (present s) = s

  unfoldable pub approve_key : Bool → Found Text → Text → Text → Update
  unfolding read_authorized valid_pub_key approval
  approve_key locked file key label =
      if not (valid_pub_key key)
      then refused
      else if not locked
      then refused
      else elim (read_authorized file) [
        | failed ↦ refused
        | absent ↦ written (before file ++ (approval key label ++ newline ∷ []))
        | present keys ↦
            if is_some (lookup key keys)
            then unchanged
            else written (before file ++ (approval key label ++ newline ∷ []))
      ]

abbrev pub is_field : Text → List Text → Bool
is_field key [] = false
is_field key (w ∷ ws) = same w key

-- The loop of `RevokeKey`: the lines that are kept, and the number of the others.
unfoldable pub revoke_lines : Text → List Text → Option (List Text × ℕ)
unfolding drop_cr
revoke_lines key [] = some ([], 0)
revoke_lines key (l ∷ ls) =
    let rest = revoke_lines key ls in
    if not (leb (length l) max_line) then none else elim rest [
      | none ↦ none
      | some (kept, removed) ↦
          if is_field key (fields (drop_cr l))
          then some (kept, removed + 1)
          else some (drop_cr l ∷ kept, removed)
    ]

unfoldable pub ended : Text → Text
ended out = if not (same out []) then out ++ newline ∷ [] else out

unfoldable pub revoke_key : Bool → Found Text → Text → Update
unfolding revoke_lines ended join
revoke_key locked absent key = refused
revoke_key locked failed key = refused
revoke_key locked (present s) key =
    if not locked then refused else elim (revoke_lines key (lines s)) [
      | none ↦ refused
      | some (kept, removed) ↦
          if removed == 0 then unchanged else written (ended (join newline kept))
    ]

-- The file after a command.
unfoldable pub updated : Update → Found Text → Found Text
updated refused file = file
updated unchanged file = file
updated (written s) file = present s
