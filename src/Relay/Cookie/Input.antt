-- ===== src/Relay/Cookie/Input.antt =====
-- The cookie of internal/relay/server.go is bound to one address, its port included.
use buddynet.Support.{ℕ, ◌^◌, ◌/◌, ◌%◌, ◌<◌, ◌≡◌, ◌⊎◌, refl, [], ◌∷◌, ◌++◌, Text, length, arith}
use buddynet.Net.{Addr}
use buddynet.Relay.Cookie.{cookie_input, big_endian_64, big_endian_16, to_16}

append-injective :
    (xs ys us vs : Text) → length xs ≡ length ys → xs ++ us ≡ ys ++ vs → (xs ≡ ys) × (us ≡ vs)
append-injective [] [] us vs h e = (refl, e)
append-injective [] (y ∷ ys) us vs h e = absurd (omega arith)
append-injective (x ∷ xs) [] us vs h e = absurd (omega arith)
append-injective (x ∷ xs) (y ∷ ys) us vs h e =
    let (front, back) = append-injective xs ys us vs (omega arith) (cc) in (cc, back)

big_endian_16-injective :
    (a b : ℕ) → a < 2 ^ 16 → b < 2 ^ 16 → big_endian_16 a ≡ big_endian_16 b → a ≡ b
unfolding big_endian_16
big_endian_16-injective a b h k e = ground arith

-- The four pairs of bytes of a 64-bit number.
big_endian_64-pairs :
    (a b : ℕ)
    → big_endian_64 a ≡ big_endian_64 b
    → (a / 2 ^ 48 % 2 ^ 16 ≡ b / 2 ^ 48 % 2 ^ 16)
      × (a / 2 ^ 32 % 2 ^ 16 ≡ b / 2 ^ 32 % 2 ^ 16)
      × (a / 2 ^ 16 % 2 ^ 16 ≡ b / 2 ^ 16 % 2 ^ 16)
      × (a % 2 ^ 16 ≡ b % 2 ^ 16)
unfolding big_endian_64 big_endian_16
big_endian_64-pairs a b e = (ground arith, ground arith, ground arith, ground arith)

big_endian_64-injective :
    (a b : ℕ) → a < 2 ^ 64 → b < 2 ^ 64 → big_endian_64 a ≡ big_endian_64 b → a ≡ b
big_endian_64-injective a b h k e = omega (arith, big_endian_64-pairs a b e)

-- An address of the two lengths that a UDP source has.
abbrev pub IsAddress : Text → Type 0
IsAddress ip = (length ip ≡ 4) ⊎ (length ip ≡ 16)

length-to_16 : (ip : Text) → IsAddress ip → length (to_16 ip) ≡ 16
unfolding to_16
length-to_16 ip h = ground arith

length-big_endian_64 : (n : ℕ) → length (big_endian_64 n) ≡ 8
unfolding big_endian_64
length-big_endian_64 n = refl

-- Two sources or two epochs share the input of the HMAC only if they have one epoch, one port and
-- one address, where an IPv4 address and its mapped form are one.
pub cookie_input-injective :
    (src other : Addr) (epoch epoch' : ℕ)
    → IsAddress src.ip
    → IsAddress other.ip
    → src.port < 2 ^ 16
    → other.port < 2 ^ 16
    → epoch < 2 ^ 64
    → epoch' < 2 ^ 64
    → cookie_input src epoch ≡ cookie_input other epoch'
    → (epoch ≡ epoch') × (to_16 src.ip ≡ to_16 other.ip) × (src.port ≡ other.port)
unfolding cookie_input
cookie_input-injective src other epoch epoch' a b p q h k e =
    let long = λ (n : ℕ). length-big_endian_64 n in
    let (first, rest) =
      append-injective (big_endian_64 epoch) (big_endian_64 epoch') _ _
        (omega (arith, long epoch, long epoch')) e in
    let (second, third) =
      append-injective (to_16 src.ip) (to_16 other.ip) _ _
        (omega (arith, length-to_16 src.ip a, length-to_16 other.ip b)) rest in
    (
      big_endian_64-injective epoch epoch' h k first,
      second,
      big_endian_16-injective src.port other.port p q third,
    )
