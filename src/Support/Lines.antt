-- ===== src/Support/Lines.antt =====
-- Lines and fields of a text file, as bufio.Scanner and strings.Fields give them for ASCII.
use Prim.Native.Nat.{ℕ}
use mathlib.Core.Path.{◌≡◌, refl, ap, ◌∙◌}
use mathlib.Core.Logic.{◌≢◌, inl, inr}
use mathlib.Core.Bool.{Bool, true, false, ◌&&◌, ◌||◌}
use mathlib.Core.List.{List, [], ◌∷◌, ◌++◌}
use native.Mathlib.Omega.{arith}
use buddynet.Support.Tests.{leb, ◌==◌, if◌then◌else◌, Bool-cases}
use buddynet.Support.Lists.{All}
use buddynet.Support.Strings.{Text}

abbrev pub newline : ℕ
newline = 10

-- A byte before the first line of what follows.
unfoldable pub cons_first : ℕ → List Text → List Text
cons_first c [] = (c ∷ []) ∷ []
cons_first c (l ∷ ls) = (c ∷ l) ∷ ls

-- The last line needs no newline, and a newline at the end opens no line.
unfoldable pub lines : Text → List Text
unfolding cons_first
lines [] = []
lines (c ∷ s) = let rest = lines s in if c == newline then [] ∷ rest else cons_first c rest

-- Each line with its newline.
unfoldable pub unlines : List Text → Text
unlines [] = []
unlines (l ∷ ls) = l ++ newline ∷ unlines ls

-- The ASCII white space of unicode.IsSpace: tab to carriage return, and the space.
abbrev pub is_space : ℕ → Bool
is_space c = leb 9 c && leb c 13 || c == 32

-- An empty word is no field.
unfoldable pub add_field : Text → List Text → List Text
add_field [] words = words
add_field (c ∷ w) words = (c ∷ w) ∷ words

-- The word that a text begins with, and the fields after it.
unfoldable pub split_fields : Text → Text × List Text
unfolding add_field
split_fields [] = ([], [])
split_fields (c ∷ s) =
    let (word, words) = split_fields s in
    if is_space c then ([], add_field word words) else (c ∷ word, words)

unfoldable pub fields : Text → List Text
unfolding split_fields add_field
fields s = let (word, words) = split_fields s in add_field word words

-- The text is empty or its last line is ended.
abbrev pub IsEnded : Text → Type 0
IsEnded [] = Unit
IsEnded (c ∷ []) = c ≡ newline
IsEnded (c ∷ d ∷ s) = IsEnded (d ∷ s)

-- A byte of a line is no newline.
abbrev pub IsLine : Text → Type 0
IsLine l = All (λ c. c ≢ newline) l

lines-ne-nil : (c : ℕ) (s : Text) → lines (c ∷ s) ≢ []
unfolding lines
lines-ne-nil c s e = elim (Bool-cases (c == newline)) [
  | inl h ↦ absurd (ground arith)
  | inr h ↦ named (lines s) (ground arith)
]
  where
    named : (ls : List Text) → cons_first c ls ≡ [] → ⊥
    named [] k = cc
    named (l ∷ ls) k = cc

cons_first-append :
    (c : ℕ) (xs ys : List Text) → xs ≢ [] → cons_first c (xs ++ ys) ≡ cons_first c xs ++ ys
unfolding cons_first
cons_first-append c [] ys h = absurd (h refl)
cons_first-append c (x ∷ xs) ys h = refl

-- What is added to an ended text is read as lines of its own.
pub lines-append : (s t : Text) → IsEnded s → lines (s ++ t) ≡ lines s ++ lines t
unfolding lines
lines-append [] t h = refl
lines-append (c ∷ []) t h = ground arith
lines-append (c ∷ d ∷ s) t h =
    let ih = lines-append (d ∷ s) t h in
    elim (Bool-cases (c == newline)) [
      | inl e ↦ rw (e, lines) (ap (◌∷◌ []) ih)
      | inr e ↦
          rw (e, lines)
            (ap (cons_first c) ih
              ∙ cons_first-append c (lines (d ∷ s)) (lines t) (lines-ne-nil d s))
    ]

-- A line that is written with its newline is read back.
pub lines-line : (l : Text) (rest : Text) → IsLine l → lines (l ++ newline ∷ rest) ≡ l ∷ lines rest
unfolding lines
lines-line [] rest h = refl
lines-line (c ∷ l) rest h = ground (arith, lines-line l rest h.1)

pub lines-unlines : (ls : List Text) → All IsLine ls → lines (unlines ls) ≡ ls
unfolding unlines lines
lines-unlines [] h = refl
lines-unlines (l ∷ ls) h = lines-line l (unlines ls) h.0 ∙ ap (◌∷◌ l) (lines-unlines ls h.1)

-- The lines of a text have no newline.
cons_first-IsLine :
    (c : ℕ) (ls : List Text) → c ≢ newline → All IsLine ls → All IsLine (cons_first c ls)
unfolding cons_first
cons_first-IsLine c [] h all = ((h, tt), tt)
cons_first-IsLine c (l ∷ ls) h all = ((h, all.0), all.1)

pub lines-IsLine : (s : Text) → All IsLine (lines s)
unfolding lines
lines-IsLine [] = tt
lines-IsLine (c ∷ s) = elim (Bool-cases (c == newline)) [
  | inl e ↦ rw (e, lines) (tt, lines-IsLine s)
  | inr e ↦ rw (e, lines) (cons_first-IsLine c (lines s) (ground arith) (lines-IsLine s))
]

-- A text with no white space is its one field.
pub fields_word :
    (c : ℕ) (s : Text) → All (λ d. is_space d ≡ false) (c ∷ s) → fields (c ∷ s) ≡ (c ∷ s) ∷ []
unfolding fields
fields_word c s h = rw (split_word (c ∷ s) h) refl
  where
    split_word : (t : Text) → All (λ d. is_space d ≡ false) t → split_fields t ≡ (t, [])
    split_word [] k = refl
    split_word (d ∷ t) k = rw (split_word t k.1, k.0) refl

-- A word without white space is the first field, and the other fields follow the space.
pub fields-append :
    (c : ℕ) (s t : Text)
    → All (λ d. is_space d ≡ false) (c ∷ s)
    → fields ((c ∷ s) ++ 32 ∷ t) ≡ (c ∷ s) ∷ fields t
unfolding fields
fields-append c s t h = rw (split-append (c ∷ s) h) refl
  where
    split-append :
        (w : Text)
        → All (λ d. is_space d ≡ false) w
        → split_fields (w ++ 32 ∷ t) ≡ (w, add_field (split_fields t).0 (split_fields t).1)
    split-append [] k = refl
    split-append (d ∷ w) k = rw (split-append w k.1, k.0) refl

abbrev pub ends_line : Text → Bool
ends_line [] = true
ends_line (c ∷ []) = c == newline
ends_line (c ∷ d ∷ s) = ends_line (d ∷ s)

pub ends_line-IsEnded : (s : Text) → ends_line s ≡ true → IsEnded s
ends_line-IsEnded [] h = tt
ends_line-IsEnded (c ∷ []) h = ground arith
ends_line-IsEnded (c ∷ d ∷ s) h = ends_line-IsEnded (d ∷ s) h

pub newline-IsEnded : (s : Text) → IsEnded (s ++ newline ∷ [])
newline-IsEnded [] = refl
newline-IsEnded (c ∷ []) = refl
newline-IsEnded (c ∷ d ∷ s) = newline-IsEnded (d ∷ s)

-- The newline that ends a last line opens no line.
pub lines-newline : (s : Text) → ends_line s ≡ false → lines (s ++ newline ∷ []) ≡ lines s
unfolding lines cons_first
lines-newline [] h = absurd (ground arith)
lines-newline (c ∷ []) h = ground arith
lines-newline (c ∷ d ∷ s) h = elim (Bool-cases (c == newline)) [
  | inl e ↦ rw (e, lines) (ap (◌∷◌ []) (lines-newline (d ∷ s) h))
  | inr e ↦ rw (e, lines) (ap (cons_first c) (lines-newline (d ∷ s) h))
]
