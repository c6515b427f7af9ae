-- ===== src/Firewall/Attributes.antt =====
-- A netlink attribute of internal/nft/nft_linux.go as the other end takes it apart.
use buddynet.Support.{
  ℕ, zero, suc, ◌+◌, ◌-◌, ◌<◌, ◌≡◌, refl, sym, ap, ◌∙◌, Option, none, some, [], ◌∷◌, ◌++◌, Text,
  length, take, drop, ltb, if◌then◌else◌, length-append, arith, ◌%◌, false,
}
use mathlib.Core.List.{append_assoc}
use buddynet.Firewall.{Host, zeros, aligned, word16, nl_attr}

take_append : (n : ℕ) (xs ys : Text) → length xs ≡ n → take n (xs ++ ys) ≡ xs
take_append zero [] ys h = refl
take_append zero (x ∷ xs) ys h = absurd (omega (arith, h))
take_append (suc n) [] ys h = absurd (omega (arith, h))
take_append (suc n) (x ∷ xs) ys h = ap (◌∷◌ x) (take_append n xs ys (omega (arith, h)))

drop_append : (n : ℕ) (xs ys : Text) → length xs ≡ n → drop n (xs ++ ys) ≡ ys
drop_append zero [] ys h = refl
drop_append zero (x ∷ xs) ys h = absurd (omega (arith, h))
drop_append (suc n) [] ys h = absurd (omega (arith, h))
drop_append (suc n) (x ∷ xs) ys h = drop_append n xs ys (omega (arith, h))

length-zeros : (n : ℕ) → length (zeros n) ≡ n
length-zeros zero = refl
length-zeros (suc n) = omega (arith, length-zeros n)

-- What reads a word of the machine back.
pub record IsHost (host : Host) (get16 : Text → ℕ) : Type 0 where
  pub two_bytes : (n : ℕ) → length (host.put16 n) ≡ 2
  pub reads : (n : ℕ) → n < word16 → get16 (host.put16 n) ≡ n

-- The length, the type, as many bytes as the length says, and the padding that is passed over.
pub read_attr : (Text → ℕ) → Text → Option (ℕ × Text × Text)
read_attr get16 bytes =
    let l = get16 (take 2 bytes) in
    if ltb (length bytes) (aligned l)
    then none
    else some (get16 (take 2 (drop 2 bytes)), take (l - 4) (drop 4 bytes), drop (aligned l) bytes)

long_enough : (s t : Text) (n : ℕ) → length s ≡ n → ltb (length (s ++ t)) n ≡ false
long_enough s t n h = ground (arith, length-append s t, h)

read_parts :
    (get16 : Text → ℕ) (x y payload pad rest : Text) (l typ : ℕ)
    → length x ≡ 2
    → length y ≡ 2
    → get16 x ≡ l
    → get16 y ≡ typ
    → l ≡ 4 + length payload
    → aligned l ≡ l + length pad
    → read_attr get16 (x ++ (y ++ (payload ++ (pad ++ rest)))) ≡ some (typ, payload, rest)
unfolding read_attr
read_parts get16 x y payload pad rest l typ hx hy gx gy size padded =
    let tail = payload ++ (pad ++ rest) in
    let b = x ++ (y ++ tail) in
    let first : take 2 b ≡ x = take_append 2 x (y ++ tail) hx in
    let second : take 2 (drop 2 b) ≡ y =
      ap (take 2) (drop_append 2 x (y ++ tail) hx) ∙ take_append 2 y tail hy in
    let body : drop 4 b ≡ tail =
      ap (drop 4) (sym (append_assoc x y tail))
      ∙ drop_append 4 (x ++ y) tail (omega (arith, length-append x y, hx, hy)) in
    let content : take (l - 4) tail ≡ payload =
      take_append (l - 4) payload (pad ++ rest) (omega (arith, size)) in
    let whole : b ≡ (x ++ (y ++ (payload ++ pad))) ++ rest = sym (
      append_assoc x (y ++ (payload ++ pad)) rest
      ∙ ap (◌++◌ x)
          (append_assoc y (payload ++ pad) rest ∙ ap (◌++◌ y) (append_assoc payload pad rest))) in
    let measured : length (x ++ (y ++ (payload ++ pad))) ≡ aligned l = omega (
      arith,
      length-append x (y ++ (payload ++ pad)),
      length-append y (payload ++ pad),
      length-append payload pad,
      hx,
      hy,
      size,
      padded,
    ) in
    let after : drop (aligned l) b ≡ rest =
      ap (drop (aligned l)) whole
      ∙ drop_append (aligned l) (x ++ (y ++ (payload ++ pad))) rest measured in
    let enough : ltb (length b) (aligned l) ≡ false =
      ap (λ t. ltb (length t) (aligned l)) whole
      ∙ long_enough (x ++ (y ++ (payload ++ pad))) rest (aligned l) measured in
    rw (first, gx, enough, second, gy, body, content, after) refl

module _ (host : Host) (get16 : Text → ℕ) (h : IsHost host get16) where
  -- An attribute is read back as it was written, with its payload to the byte, and the bytes that
  -- follow it are what is read next: no payload of less than 65,532 bytes runs into another
  -- attribute.
  pub read_attr-nl_attr :
      (typ : ℕ) (payload rest : Text)
      → typ < word16
      → 4 + length payload < word16
      → read_attr get16 (nl_attr host typ payload ++ rest) ≡ some (typ, payload, rest)
  unfolding read_attr nl_attr
  read_attr-nl_attr typ payload rest small fits =
      let l = 4 + length payload in
      let x = host.put16 (l % word16) in
      let y = host.put16 typ in
      let pad = zeros (aligned l - l) in
      let size : get16 x ≡ l = h.reads (l % word16) (omega arith) ∙ omega (arith, fits) in
      let whole : nl_attr host typ payload ++ rest ≡ x ++ (y ++ (payload ++ (pad ++ rest))) =
        append_assoc x (y ++ (payload ++ pad)) rest
        ∙ ap (◌++◌ x)
            (append_assoc y (payload ++ pad) rest ∙ ap (◌++◌ y) (append_assoc payload pad rest)) in
      ap (read_attr get16) whole
      ∙ read_parts get16 x y payload pad rest l typ (h.two_bytes (l % word16)) (h.two_bytes typ)
          size (h.reads typ small) refl (omega (arith, length-zeros (aligned l - l)))
