-- ===== src/Relay/Accounting.antt =====
-- The caps of the relay of internal/relay/server.go and tickets.go: what its maps count.
pub mod Steps
pub mod Binds
pub mod Tickets
pub mod Reaping
use buddynet.Support.{
  ℕ, suc, ◌+◌, ◌-◌, ◌≤◌, ◌<◌, ◌≡◌, ◌≢◌, refl, ite, Bool, true, false, Option, none, some, List, [],
  ◌∷◌, ◌++◌, Text, text_dec, text_key, Map, lookup, insert, delete, lookup-insert, lookup-delete,
  IsDistinct, insert-IsDistinct, delete-IsDistinct, delete_absent, length, length-insert-le,
  length-insert_present, length-delete-le, All, arith, leb, if◌then◌else◌,
}
use buddynet.Relay.{Leg, Session, Server, held, or_zero, release_ip, max_legs_per_ses}

-- How many legs are charged to a key.
abbrev pub legs_with : Text → List Leg → ℕ
legs_with a [] = 0
legs_with a (l ∷ legs) = ite (text_dec l.acct_key a) 1 0 + legs_with a legs

abbrev pub legs_of : Text → Map Text Session → ℕ
legs_of a [] = 0
legs_of a ((token, ses) ∷ m) = legs_with a ses.legs + legs_of a m

abbrev pub legs_at : Option Session → List Leg
legs_at none = []
legs_at (some ses) = ses.legs

-- A session that stands in the map has one leg or two.
abbrev pub IsSized : Session → Type 0
IsSized ses = (0 < length ses.legs) × (length ses.legs ≤ max_legs_per_ses)

abbrev pub AllSized : Map Text Session → Type 0
AllSized = All (λ e. IsSized e.1)

-- The counts mirror the legs that stand in the sessions, key by key, and every cap is kept.
pub record Accounted (max_sessions max_legs : ℕ) (sessions : Map Text Session) (counts : Map Text ℕ)
    : Type 0 where
  pub distinct : IsDistinct sessions
  pub mirrored : (a : Text) → held a counts ≡ legs_of a sessions
  pub capped : (a : Text) → held a counts ≤ max_legs
  pub sized : AllSized sessions
  pub bounded : length sessions ≤ max_sessions

abbrev pub IsAccounted : Server → Type 0
IsAccounted s = Accounted s.max_sessions s.max_legs_per_ip s.sessions s.legs_per_ip

pub legs_with-append :
    (a : Text) (xs ys : List Leg) → legs_with a (xs ++ ys) ≡ legs_with a xs + legs_with a ys
legs_with-append a [] ys = omega arith
legs_with-append a (x ∷ xs) ys = omega (arith, legs_with-append a xs ys)

pub legs_of-insert :
    (a token : Text) (ses : Session) (m : Map Text Session)
    → legs_of a (insert token ses m) + legs_with a (legs_at (lookup token m))
      ≡ legs_of a m + legs_with a ses.legs
unfolding insert lookup
legs_of-insert a token ses [] = omega arith
legs_of-insert a token ses ((t, x) ∷ m) = ground (arith, legs_of-insert a token ses m)

pub legs_of-delete :
    (a token : Text) (m : Map Text Session)
    → IsDistinct m
    → legs_of a (delete token m) + legs_with a (legs_at (lookup token m)) ≡ legs_of a m
unfolding delete lookup
legs_of-delete a token [] d = omega arith
legs_of-delete a token ((t, x) ∷ m) d =
    ground (arith, legs_of-delete a token m, delete_absent token m)

pub insert-AllSized :
    (token : Text) (ses : Session) (m : Map Text Session)
    → IsSized ses
    → AllSized m
    → AllSized (insert token ses m)
unfolding insert
insert-AllSized token ses [] h all = (h, tt)
insert-AllSized token ses ((t, x) ∷ m) h all = ground (arith, insert-AllSized token ses m h)

pub delete-AllSized : (token : Text) (m : Map Text Session) → AllSized m → AllSized (delete token m)
unfolding delete
delete-AllSized token [] all = tt
delete-AllSized token ((t, x) ∷ m) all = ground (arith, delete-AllSized token m)

pub lookup-AllSized :
    (token : Text) (ses : Session) (m : Map Text Session)
    → AllSized m
    → lookup token m ≡ some ses
    → IsSized ses
unfolding lookup
lookup-AllSized token ses [] all h = absurd (ground arith)
lookup-AllSized token ses ((t, x) ∷ m) all h = ground (arith, lookup-AllSized token ses m)

pub legs_with-le-legs_of :
    (a token : Text) (m : Map Text Session) (ses : Session)
    → lookup token m ≡ some ses
    → legs_with a ses.legs ≤ legs_of a m
unfolding lookup
legs_with-le-legs_of a token [] ses h = absurd (ground arith)
legs_with-le-legs_of a token ((t, x) ∷ m) ses h = ground (arith, legs_with-le-legs_of a token m ses)

pub held-insert :
    (a acct : Text) (n : ℕ) (c : Map Text ℕ)
    → held a (insert acct n c) ≡ ite (text_dec acct a) n (held a c)
unfolding held
held-insert a acct n c = ground (arith, lookup-insert acct a n c)

-- To release a key that is charged takes one from it, and nothing from another.
pub held-release_ip :
    (a acct : Text) (c : Map Text ℕ)
    → 0 < held acct c
    → held a (release_ip acct c) + ite (text_dec acct a) 1 0 ≡ held a c
unfolding held release_ip
held-release_ip a acct c h =
    ground (arith, lookup-insert acct a (held acct c - 1) c, lookup-delete acct a c)
