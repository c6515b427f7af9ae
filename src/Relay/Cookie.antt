-- ===== src/Relay/Cookie.antt =====
-- The address-validation cookie of internal/relay/server.go and offer.go.
pub mod Input
use buddynet.Support.{
  ℕ, ◌+◌, ◌-◌, ◌*◌, ◌/◌, ◌%◌, ◌^◌, ◌==◌, not, ◌||◌, Option, none, some, [], ◌∷◌, ◌++◌, Text, codes,
  length, take, if◌then◌else◌,
}
use buddynet.Net.{Addr, mapped_prefix}
use buddynet.Ticket.{Stdlib, same}
use buddynet.Relay.{Server, second}

abbrev pub cookie_len : ℕ
cookie_len = 16

abbrev pub cookie_epoch : ℕ
cookie_epoch = 30 * second

abbrev pub challenge_prefix : Text
challenge_prefix = codes "BNRLYC1"

unfoldable pub marshal_challenge : Text → Text
marshal_challenge cookie = challenge_prefix ++ cookie

-- binary.BigEndian: the low bytes of a number, the highest first.
unfoldable pub big_endian_16 : ℕ → Text
big_endian_16 n = (n / 256 % 256) ∷ (n % 256) ∷ []

unfoldable pub big_endian_64 : ℕ → Text
unfolding big_endian_16
big_endian_64 n =
    big_endian_16 (n / 2 ^ 48)
    ++ (big_endian_16 (n / 2 ^ 32) ++ (big_endian_16 (n / 2 ^ 16) ++ big_endian_16 n))

-- net.IP.To16: an IPv4 address in its mapped form.
unfoldable pub to_16 : Text → Text
to_16 ip = if length ip == 4 then mapped_prefix ++ ip else if length ip == 16 then ip else []

-- What the cookie's HMAC is taken over.
unfoldable pub cookie_input : Addr → ℕ → Text
unfolding big_endian_64 to_16
cookie_input src epoch = big_endian_64 epoch ++ (to_16 src.ip ++ big_endian_16 src.port)

-- `hmac` is HMAC-SHA256, of a key and a message.
module _ (hmac : Text → Text → Text) where
  unfoldable pub compute_cookie : Server → Addr → ℕ → Text
  compute_cookie s src epoch = take cookie_len (hmac s.cookie_key (cookie_input src epoch))

  unfoldable pub fresh_cookie : Server → Addr → ℕ → Text
  fresh_cookie s src now = compute_cookie s src (now / cookie_epoch)

  -- `now-1` as the source converts it to a uint64.
  abbrev pub previous : ℕ → ℕ
  previous epoch = (epoch + (2 ^ 64 - 1)) % 2 ^ 64

  unfoldable pub valid_cookie : Stdlib → Server → Text → Addr → ℕ → Option Text
  valid_cookie std s b64 src now = if same b64 [] then none else elim (std.decode_b64 b64) [
    | none ↦ none
    | some got ↦
        if not (length got == cookie_len)
        then none
        else (let epoch = now / cookie_epoch in
            if same got (compute_cookie s src epoch)
              || same got (compute_cookie s src (previous epoch))
            then some got
            else none)
  ]
