-- ===== src/Net/Keys.antt =====
-- The rule of internal/netkey/netkey.go: which addresses share a budget.
use buddynet.Support.{
  ◌≡◌, ◌≢◌, refl, sym, ap, ◌∙◌, [], ◌∷◌, ◌++◌, Text, length, take, arith, length-append, text_dec,
  ℕ_discrete,
}
use buddynet.Net.{Texts, from_ip, mapped_prefix}

-- The mapped form ::ffff:a.b.c.d of an IPv4 address is charged under the key of the address.
pub from_ip-mapped :
    (texts : Texts) (ip : Text)
    → length ip ≡ 4
    → from_ip texts (mapped_prefix ++ ip) ≡ from_ip texts ip
unfolding from_ip text_dec ℕ_discrete
from_ip-mapped texts (a ∷ b ∷ c ∷ d ∷ []) h = refl
from_ip-mapped texts ip h = absurd (omega arith)

take-append_8 : (net host : Text) → length net ≡ 8 → take 8 (net ++ host) ≡ net
take-append_8 (a ∷ b ∷ c ∷ d ∷ e ∷ f ∷ g ∷ i ∷ []) host h = refl
take-append_8 net host h = absurd (omega arith)

take_8-take_12 : (a : Text) → length a ≡ 16 → take 8 (take 12 a) ≡ take 8 a
take_8-take_12 (x1 ∷ x2 ∷ x3 ∷ x4 ∷ x5 ∷ x6 ∷ x7 ∷ x8 ∷ x9 ∷ x10 ∷ x11 ∷ x12 ∷ rest) h = refl
take_8-take_12 a h = absurd (omega arith)

-- An IPv6 address outside ::/64 is charged under its /64.
from_ip-v6 :
    (texts : Texts) (a : Text)
    → length a ≡ 16
    → take 8 a ≢ take 8 mapped_prefix
    → from_ip texts a ≡ texts.prefix_string (take 8 a) 64
unfolding from_ip
from_ip-v6 texts a h outside =
    ground
      (arith, λ (e : take 12 a ≡ mapped_prefix). outside (sym (take_8-take_12 a h) ∙ ap (take 8) e))

-- Two IPv6 addresses in one /64 other than ::/64 are charged under one key, whatever their other
-- eight bytes, so new addresses in it are no new budgets.
pub from_ip-append :
    (texts : Texts) (net host host' : Text)
    → length net ≡ 8
    → length host ≡ 8
    → length host' ≡ 8
    → net ≢ take 8 mapped_prefix
    → from_ip texts (net ++ host) ≡ from_ip texts (net ++ host')
from_ip-append texts net host host' h h₁ h₂ outside = same host h₁ ∙ sym (same host' h₂)
  where
    same :
        (other : Text)
        → length other ≡ 8
        → from_ip texts (net ++ other) ≡ texts.prefix_string net 64
    same other k =
        let front = take-append_8 net other h in
        from_ip-v6 texts (net ++ other) (omega (arith, length-append net other))
          (λ e. outside (sym front ∙ e))
        ∙ ap (λ n. texts.prefix_string n 64) front
