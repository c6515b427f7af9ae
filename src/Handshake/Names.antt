-- ===== src/Handshake/Names.antt =====
-- The checks of names: `validField` of internal/role/handshake.go and `ValidName` of
-- pkg/protocol/names.go.
use buddynet.Support.{
  ℕ, ◌==◌, Bool, true, false, not, ◌&&◌, ◌||◌, [], ◌∷◌, Text, length, leb, if◌then◌else◌,
}

abbrev pub max_field_len : ℕ
max_field_len = 128

abbrev pub max_name_len : ℕ
max_name_len = 63

abbrev pub between : ℕ → ℕ → ℕ → Bool
between low high c = leb low c && leb c high

-- The base64url alphabet.
abbrev pub is_base64url : ℕ → Bool
is_base64url c =
    between b'A' b'Z' c || between b'a' b'z' c || between b'0' b'9' c || c == b'-' || c == b'_'

-- The loop over the bytes.
unfoldable pub all_bytes : (ℕ → Bool) → Text → Bool
all_bytes p [] = true
all_bytes p (c ∷ s) = let rest = all_bytes p s in if p c then rest else false

unfoldable pub valid_field : Text → Bool
unfolding all_bytes
valid_field s =
    if length s == 0 || not (leb (length s) max_field_len) then false else all_bytes is_base64url s

abbrev pub is_alphanumeric : ℕ → Bool
is_alphanumeric c = between b'a' b'z' c || between b'0' b'9' c

-- The first and the last byte of a text pass a test.
unfoldable pub ends_pass : (ℕ → Bool) → Text → Bool
ends_pass p [] = false
ends_pass p (c ∷ []) = p c
ends_pass p (c ∷ d ∷ s) = p c && last_passes (d ∷ s)
  where
    last_passes : Text → Bool
    last_passes [] = false
    last_passes (x ∷ []) = p x
    last_passes (x ∷ y ∷ t) = last_passes (y ∷ t)

-- `nameRE`: [a-z0-9]([a-z0-9-]*[a-z0-9])?
unfoldable pub matches_name : Text → Bool
matches_name s = all_bytes (λ c. is_alphanumeric c || c == b'-') s && ends_pass is_alphanumeric s

-- `fpAliasRE`: [0-9a-f]{8}
unfoldable pub matches_alias : Text → Bool
matches_alias s = length s == 8 && all_bytes (λ c. between b'0' b'9' c || between b'a' b'f' c) s

unfoldable pub valid_name : Text → Bool
valid_name s =
    leb 1 (length s) && leb (length s) max_name_len && matches_name s && not (matches_alias s)
