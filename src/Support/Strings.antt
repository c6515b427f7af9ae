-- ===== src/Support/Strings.antt =====
-- A Go string or byte slice as its bytes, and decidable equality as an instance.
use Prim.Native.Nat.{ℕ}
use Prim.Native.Char.{code}
use Prim.Native.String.{String}
use mathlib.Core.List.{List, [], ◌∷◌}
use mathlib.Core.Path.{◌≡◌, refl, ap₂}
use native.Mathlib.Decide.{ℕ_discrete}

abbrev pub Text : Type 0
Text = List ℕ

-- The bytes of an ASCII literal.
abbrev pub codes : String → Text
codes String.[] = []
codes (String.◌∷◌ c s) = code c ∷ codes s

unfoldable pub text_dec : Discrete Text
text_dec [] [] = yes refl
text_dec [] (y ∷ ys) = no (λ (e : [] ≡ y ∷ ys). cc)
text_dec (x ∷ xs) [] = no (λ (e : x ∷ xs ≡ []). cc)
text_dec (x ∷ xs) (y ∷ ys) =
    let rest = text_dec xs ys in
    elim (ℕ_discrete x y) [
      | no p ↦ no (λ (e : x ∷ xs ≡ y ∷ ys). p (cc))
      | yes p ↦ elim rest [
        | no q ↦ no (λ (e : x ∷ xs ≡ y ∷ ys). q (cc))
        | yes q ↦ yes (ap₂ ◌∷◌ p q)
      ]
    ]

-- A type whose values can be the keys of a map.
pub record Key (K : Type 0) : Type 0 where
  pub dec : Discrete K

instance abbrev pub text_key : Key Text
text_key = record { dec = text_dec }

instance abbrev pub nat_key : Key ℕ
nat_key = record { dec = ℕ_discrete }
