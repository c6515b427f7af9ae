-- ===== src/Support/Maps.antt =====
-- A Go map as an association list.
use Prim.Native.Nat.{suc, ◌≤◌}
use mathlib.Core.Bool.{Bool}
use mathlib.Core.List.{List, [], ◌∷◌}
use mathlib.Core.Logic.{◌≢◌, ite, if_pos}
use mathlib.Core.Option.{Option, none, some}
use mathlib.Core.Path.{◌≡◌, refl, ◌∙◌}
use native.Mathlib.Omega.{arith}
use buddynet.Support.Lists.{length, All}
use buddynet.Support.Tests.{if◌then◌else◌}
use buddynet.Support.Strings.{Key}

abbrev pub Map : Type 0 → Type 0 → Type 0
Map K V = List (K × V)

-- What a test leaves of a value.
abbrev pub passing : {V : Type 0} → (V → Bool) → Option V → Option V
passing p none = none
passing p (some v) = if p v then some v else none

module _ {K V : Type 0} ⦃k : Key K⦄ where
  -- `m[a]`
  unfoldable pub lookup : K → Map K V → Option V
  lookup a [] = none
  lookup a ((b, v) ∷ m) = ite (k.dec b a) (some v) (lookup a m)

  -- `m[a] = v`
  unfoldable pub insert : K → V → Map K V → Map K V
  insert a v [] = (a, v) ∷ []
  insert a v ((b, w) ∷ m) = ite (k.dec b a) ((b, v) ∷ m) ((b, w) ∷ insert a v m)

  -- `delete(m, a)`
  unfoldable pub delete : K → Map K V → Map K V
  delete a [] = []
  delete a ((b, w) ∷ m) = ite (k.dec b a) (delete a m) ((b, w) ∷ delete a m)

  -- A loop that deletes the entries whose value fails a test.
  unfoldable pub retain : (V → Bool) → Map K V → Map K V
  retain p [] = []
  retain p ((b, w) ∷ m) = let rest = retain p m in if p w then (b, w) ∷ rest else rest

  -- A Go map has a key once.
  abbrev pub IsDistinct : Map K V → Type 0
  IsDistinct [] = Unit
  IsDistinct ((b, w) ∷ m) = (lookup b m ≡ none) × IsDistinct m

  pub lookup-insert :
      (a b : K) (v : V) (m : Map K V)
      → lookup b (insert a v m) ≡ ite (k.dec a b) (some v) (lookup b m)
  unfolding lookup insert
  lookup-insert a b v [] = refl
  lookup-insert a b v ((c, w) ∷ m) = ground (arith, lookup-insert a b v m)

  pub lookup-delete :
      (a b : K) (m : Map K V) → lookup b (delete a m) ≡ ite (k.dec a b) none (lookup b m)
  unfolding lookup delete
  lookup-delete a b [] = ground arith
  lookup-delete a b ((c, w) ∷ m) = ground (arith, lookup-delete a b m)

  pub insert-IsDistinct : (a : K) (v : V) (m : Map K V) → IsDistinct m → IsDistinct (insert a v m)
  unfolding lookup insert
  insert-IsDistinct a v [] h = (refl, tt)
  insert-IsDistinct a v ((c, w) ∷ m) h =
      ground (arith, insert-IsDistinct a v m, lookup-insert a c v m)

  pub delete-IsDistinct : (a : K) (m : Map K V) → IsDistinct m → IsDistinct (delete a m)
  unfolding lookup delete
  delete-IsDistinct a [] h = tt
  delete-IsDistinct a ((c, w) ∷ m) h = ground (arith, delete-IsDistinct a m, lookup-delete a c m)

  pub length-insert-le : (a : K) (v : V) (m : Map K V) → length (insert a v m) ≤ suc (length m)
  unfolding insert
  length-insert-le a v [] = omega arith
  length-insert-le a v ((c, w) ∷ m) = ground (arith, length-insert-le a v m)

  -- An entry that is there is replaced in place.
  pub length-insert_present :
      (a : K) (v w : V) (m : Map K V) → lookup a m ≡ some w → length (insert a v m) ≡ length m
  unfolding lookup insert
  length-insert_present a v w [] h = ground arith
  length-insert_present a v w ((c, x) ∷ m) h = ground (arith, length-insert_present a v w m)

  pub length-delete-le : (a : K) (m : Map K V) → length (delete a m) ≤ length m
  unfolding delete
  length-delete-le a [] = omega arith
  length-delete-le a ((c, x) ∷ m) = ground (arith, length-delete-le a m)

  pub delete_absent : (a : K) (m : Map K V) → lookup a m ≡ none → delete a m ≡ m
  unfolding lookup delete
  delete_absent a [] h = refl
  delete_absent a ((c, x) ∷ m) h = ground (arith, delete_absent a m)

  pub length-delete_present :
      (a : K) (w : V) (m : Map K V)
      → IsDistinct m
      → lookup a m ≡ some w
      → suc (length (delete a m)) ≡ length m
  unfolding lookup delete
  length-delete_present a w [] d h = ground arith
  length-delete_present a w ((c, x) ∷ m) d h =
      ground (arith, length-delete_present a w m, delete_absent a m)

  retain_absent :
      (p : V → Bool) (a : K) (m : Map K V) → lookup a m ≡ none → lookup a (retain p m) ≡ none
  unfolding lookup retain
  retain_absent p a [] h = refl
  retain_absent p a ((c, w) ∷ m) h = ground (arith, retain_absent p a m)

  pub lookup-retain :
      (p : V → Bool) (a : K) (m : Map K V)
      → IsDistinct m
      → lookup a (retain p m) ≡ passing p (lookup a m)
  unfolding lookup retain
  lookup-retain p a [] d = refl
  lookup-retain p a ((c, w) ∷ m) d = ground (arith, lookup-retain p a m, retain_absent p a m)

  pub retain-IsDistinct : (p : V → Bool) (m : Map K V) → IsDistinct m → IsDistinct (retain p m)
  unfolding lookup retain
  retain-IsDistinct p [] d = tt
  retain-IsDistinct p ((c, w) ∷ m) d = ground (arith, retain-IsDistinct p m, retain_absent p c m)

  pub length-retain-le : (p : V → Bool) (m : Map K V) → length (retain p m) ≤ length m
  unfolding retain
  length-retain-le p [] = omega arith
  length-retain-le p ((c, w) ∷ m) = ground (arith, length-retain-le p m)

  pub insert-insert : (a : K) (v w : V) (m : Map K V) → insert a w (insert a v m) ≡ insert a w m
  unfolding insert
  insert-insert a v w [] = ground arith
  insert-insert a v w ((c, x) ∷ m) = ground (arith, insert-insert a v w m)

  -- A new entry that is taken back out leaves the map as it was.
  pub delete-insert :
      (a : K) (v : V) (m : Map K V) → lookup a m ≡ none → delete a (insert a v m) ≡ m
  unfolding lookup insert delete
  delete-insert a v [] h = ground arith
  delete-insert a v ((c, x) ∷ m) h = ground (arith, delete-insert a v m)

  -- The entries stand in a map.
  abbrev pub Stands : Map K V → Map K V → Type 0
  Stands entries m = All (λ e. lookup e.0 m ≡ some e.1) entries

  Stands-cons :
      (b : K) (w : V) (entries m : Map K V)
      → lookup b m ≡ none
      → Stands entries m
      → Stands entries ((b, w) ∷ m)
  unfolding lookup
  Stands-cons b w [] m h s = tt
  Stands-cons b w ((c, x) ∷ entries) m h s = ground (arith, Stands-cons b w entries m h)

  pub Stands-self : (m : Map K V) → IsDistinct m → Stands m m
  unfolding lookup
  Stands-self [] d = tt
  Stands-self ((b, w) ∷ m) d =
      (if_pos (k.dec b b) refl _ _, Stands-cons b w m m d.0 (Stands-self m d.1))

  -- A change at a key that the entries do not have.
  pub Stands-other :
      (a : K) (entries m m' : Map K V)
      → lookup a entries ≡ none
      → ((b : K) → b ≢ a → lookup b m' ≡ lookup b m)
      → Stands entries m
      → Stands entries m'
  unfolding lookup
  Stands-other a [] m m' h same s = tt
  Stands-other a ((c, x) ∷ entries) m m' h same s =
      (same c (λ e. ground arith) ∙ s.0, Stands-other a entries m m' (ground arith) same s.1)
