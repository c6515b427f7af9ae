-- ===== src/Trust/Sessions.antt =====
-- internal/role/session.go: the session lines of the known_peers file. A file is its bytes; a lock
-- that is not granted is `false`. A session is a key in base64 and its secret.
use buddynet.Support.{
  ℕ, ◌+◌, ◌==◌, Bool, true, false, not, Option, none, some, List, [], ◌∷◌, ◌++◌, Text, length, leb,
  if◌then◌else◌,
}
use buddynet.Support.Lines.{newline, lines, fields}
use buddynet.Ticket.{same}
use buddynet.Authz.{Found, absent, failed, present}
use buddynet.Authz.File.{Update, refused, unchanged, written, drop_cr, join, ended, max_line}
use buddynet.Trust.{is_revoked}

-- Whether a line is the session of a key.
abbrev pub is_session_of : Text → List Text → Bool
is_session_of key [] = false
is_session_of key (t ∷ []) = false
is_session_of key (t ∷ k ∷ []) = false
is_session_of key (t ∷ k ∷ secret ∷ ws) = same k key

abbrev pub is_blank : List Text → Bool
is_blank [] = true
is_blank (w ∷ ws) = false

-- The loop of `removeSessionLocked`: the lines that stay, and how many go.
unfoldable pub other_lines : Text → List Text → Option (List Text × ℕ)
unfolding drop_cr
other_lines key [] = some ([], 0)
other_lines key (l ∷ ls) =
    let rest = other_lines key ls in
    let words = fields (drop_cr l) in
    if not (leb (length l) max_line) then none else elim rest [
      | none ↦ none
      | some (kept, removed) ↦
          if is_session_of key words
          then some (kept, removed + 1)
          else if is_blank words
          then some (kept, removed)
          else some (drop_cr l ∷ kept, removed)
    ]

unfoldable pub remove_session : Bool → Found Text → Text → Update
unfolding other_lines ended join
remove_session false store key = refused
remove_session true absent key = unchanged
remove_session true failed key = refused
remove_session true (present s) key = elim (other_lines key (lines s)) [
  | none ↦ refused
  | some (kept, removed) ↦ if removed == 0 then unchanged else written (ended (join newline kept))
]

-- The loop of `saveSessionLocked`, which takes the lines that the scanner gives and does not ask for
-- its error: it stops at a line that is too long.
unfoldable pub lines_before : Text → List Text → List Text
unfolding drop_cr
lines_before key [] = []
lines_before key (l ∷ ls) =
    let rest = lines_before key ls in
    let words = fields (drop_cr l) in
    if not (leb (length l) max_line)
    then []
    else if is_session_of key words
    then rest
    else if is_blank words
    then rest
    else drop_cr l ∷ rest

module _ (decode : Text → Option Text) (encode : Text → Text) (token_key : Text → Text) where
  abbrev pub session_line : Text → Text → Text → Text
  session_line token key secret = token_key token ++ 32 ∷ (key ++ 32 ∷ secret)

  unfoldable pub save_session : Bool → Found Text → Found Text → Text → Text → Text → Update
  unfolding is_revoked lines_before join
  save_session false revocations store token key secret = refused
  save_session true revocations store token key secret =
      elim (is_revoked decode encode token_key revocations key) [
        | none ↦ refused
        | some true ↦ refused
        | some false ↦ elim store [
          | failed ↦ refused
          | absent ↦ written (session_line token key secret ++ newline ∷ [])
          | present s ↦ written (
              join newline (lines_before key (lines s) ++ session_line token key secret ∷ [])
              ++ newline ∷ [])
        ]
      ]

  -- The session of a line, if it has one of a valid key.
  unfoldable pub session_of : List Text → List (Text × Text)
  session_of [] = []
  session_of (t ∷ []) = []
  session_of (t ∷ k ∷ []) = []
  session_of (t ∷ k ∷ secret ∷ ws) = elim (decode k) [
    | none ↦ []
    | some pin ↦ (encode pin, secret) ∷ []
  ]

  -- The loop of `loadSessions`; a line that is too long is an error.
  unfoldable pub sessions_in : List Text → Option (List (Text × Text))
  unfolding session_of
  sessions_in [] = some []
  sessions_in (l ∷ ls) =
      let rest = sessions_in ls in
      if not (leb (length l) max_line) then none else elim rest [
        | none ↦ none
        | some sessions ↦ some (session_of (fields (drop_cr l)) ++ sessions)
      ]

  unfoldable pub load_sessions : Found Text → Option (List (Text × Text))
  unfolding sessions_in lines
  load_sessions absent = some []
  load_sessions failed = none
  load_sessions (present s) = sessions_in (lines s)
