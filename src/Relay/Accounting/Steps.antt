-- ===== src/Relay/Accounting/Steps.antt =====
-- The steps that the binds of internal/relay/server.go and tickets.go share, against the caps.
use buddynet.Support.{
  ℕ, suc, ◌+◌, ◌≤◌, ◌<◌, ◌≡◌, refl, sym, ap, ◌∙◌, inl, inr, ite, Bool, true, false, ◌&&◌, Option,
  none, some, Text, text_dec, text_key, Map, lookup, insert, delete, insert-IsDistinct,
  insert-insert, delete-insert, length, length-append, length-insert-le, length-insert_present,
  arith, ◌==◌, Bool-cases, Option-cases,
}
use buddynet.Net.{Addr, Texts}
use buddynet.Relay.{
  Session, Server, Refusal, held, warn_hoard, drop_if_empty, add_leg, mark_paired, reject_ticket,
  max_legs_per_ses,
}
use buddynet.Relay.Network.{new_session}
use buddynet.Relay.Accounting.{
  legs_with, legs_at, IsSized, Accounted, IsAccounted, legs_with-append, legs_of-insert,
  insert-AllSized, lookup-AllSized, held-insert,
}

-- One more leg at a session, charged to a key with room.
pub charge-Accounted :
    {ms ml : ℕ} {m : Map Text Session} {c : Map Text ℕ} (token acct : Text) (ses : Session)
    → Accounted ms ml m c
    → ((a : Text)
        → legs_with a ses.legs ≡ legs_with a (legs_at (lookup token m)) + ite (text_dec acct a) 1 0)
    → IsSized ses
    → held acct c < ml
    → (lookup token m ≡ none → length m < ms)
    → Accounted ms ml (insert token ses m) (insert acct (held acct c + 1) c)
charge-Accounted {ms} {ml} {m} {c} token acct ses v more sized room space = record {
  distinct = insert-IsDistinct token ses m v.distinct;
  mirrored = λ a. ground (
    arith,
    held-insert a acct (held acct c + 1) c,
    legs_of-insert a token ses m,
    more a,
    v.mirrored a,
    v.mirrored acct,
  );
  capped = λ a. ground (arith, held-insert a acct (held acct c + 1) c, v.capped a);
  sized = insert-AllSized token ses m sized v.sized;
  bounded = elim (Option-cases (lookup token m)) [
    | inl e ↦ omega (arith, space e, length-insert-le token ses m)
    | inr (old, e) ↦ omega (arith, v.bounded, length-insert_present token ses old m e)
  ];
}

-- A session that is replaced by one with the same charges.
pub replace-Accounted :
    {ms ml : ℕ} {m : Map Text Session} {c : Map Text ℕ} (token : Text) (old ses : Session)
    → Accounted ms ml m c
    → lookup token m ≡ some old
    → length ses.legs ≡ length old.legs
    → (c' : Map Text ℕ)
    → ((a : Text) → held a c' + legs_with a old.legs ≡ held a c + legs_with a ses.legs)
    → ((a : Text) → held a c' ≤ ml)
    → Accounted ms ml (insert token ses m) c'
replace-Accounted {ms} {ml} {m} {c} token old ses v e long c' moved cap =
    let sized = lookup-AllSized token old m v.sized e in
    record {
      distinct = insert-IsDistinct token ses m v.distinct;
      mirrored = λ a.
          let at : legs_with a (legs_at (lookup token m)) ≡ legs_with a old.legs =
            ap (λ o. legs_with a (legs_at o)) e in
          omega (arith, legs_of-insert a token ses m, moved a, v.mirrored a, at);
      capped = cap;
      sized = insert-AllSized token ses m (omega arith) v.sized;
      bounded = omega (arith, v.bounded, length-insert_present token ses old m e);
    }

-- What a claim makes of the sessions and the counts.
pub record Claims (s s' : Server) (token acct : Text) (ses : Session) : Type 0 where
  pub now : Session
  pub stored : s'.sessions ≡ insert token now s.sessions
  pub charged : s'.legs_per_ip ≡ insert acct (held acct s.legs_per_ip + 1) s.legs_per_ip
  pub longer : length now.legs ≡ suc (length ses.legs)
  pub more : (a : Text) → legs_with a now.legs ≡ legs_with a ses.legs + ite (text_dec acct a) 1 0
  pub same_sessions : s'.max_sessions ≡ s.max_sessions
  pub same_legs : s'.max_legs_per_ip ≡ s.max_legs_per_ip

pub add_leg-Claims :
    (texts : Texts) (s : Server) (token : Text) (ses : Session) (src : Addr) (acct name epk : Text)
    → let (ses', s') = add_leg texts s token ses src acct name epk in
      Claims s (mark_paired token ses' s') token acct ses
unfolding add_leg mark_paired
add_leg-Claims texts s token ses src acct name epk =
    let (ses', s') = add_leg texts s token ses src acct name epk in
    let longer : length ses'.legs ≡ suc (length ses.legs) =
      omega (arith, length-append ses.legs _) in
    let more : (a : Text)
        → legs_with a ses'.legs ≡ legs_with a ses.legs + ite (text_dec acct a) 1 0 =
      λ a. omega (arith, legs_with-append a ses.legs _) in
    elim (Bool-cases (length ses'.legs == 2)) [
      | inr e ↦
          rw (e, mark_paired)
            (record {
              now = ses';
              stored = refl;
              charged = refl;
              longer = longer;
              more = more;
              same_sessions = refl;
              same_legs = refl;
            })
      | inl e ↦
          rw (e, mark_paired)
            (record {
              now = record ses' { paired = true };
              stored = insert-insert token ses' _ s.sessions;
              charged = refl;
              longer = longer;
              more = more;
              same_sessions = refl;
              same_legs = refl;
            })
    ]

-- A claim keeps the invariant. `m` is the map before this call put an empty session into it.
pub Claims-IsAccounted :
    (s s' : Server) (token acct : Text) (ses : Session) (m : Map Text Session)
    → Accounted s.max_sessions s.max_legs_per_ip m s.legs_per_ip
    → ((now : Session) → insert token now s.sessions ≡ insert token now m)
    → legs_at (lookup token m) ≡ ses.legs
    → (lookup token m ≡ none → length m < s.max_sessions)
    → length ses.legs < max_legs_per_ses
    → held acct s.legs_per_ip < s.max_legs_per_ip
    → Claims s s' token acct ses
    → IsAccounted s'
Claims-IsAccounted s s' token acct ses m v stored at space short room c =
    let kept =
      charge-Accounted token acct c.now v
        (λ a. c.more a ∙ ap (λ legs. legs_with a legs + ite (text_dec acct a) 1 0) (sym at))
        (omega (arith, c.longer)) room space in
    rw (c.stored, stored c.now, c.charged, c.same_sessions, c.same_legs) kept

-- The maps and caps that the invariant reads are those of another state.
abbrev pub SameTables : Server → Server → Type 0
SameTables s s' =
    (s'.sessions ≡ s.sessions)
    × (s'.legs_per_ip ≡ s.legs_per_ip)
    × (s'.max_sessions ≡ s.max_sessions)
    × (s'.max_legs_per_ip ≡ s.max_legs_per_ip)

pub SameTables-IsAccounted : (s s' : Server) → SameTables s s' → IsAccounted s → IsAccounted s'
SameTables-IsAccounted s s' (a, b, c, d) v = rw (a, b, c, d) v

pub warn_hoard-SameTables :
    (s : Server) (acct : Text) (now : ℕ) → SameTables s (warn_hoard s acct now).0
unfolding warn_hoard
warn_hoard-SameTables s acct now = ground arith

pub reject_ticket-SameTables :
    (s : Server) (r : Refusal) (sid leg : Text) (src : Option Addr) (now : ℕ)
    → SameTables s (reject_ticket s r sid leg src now).0
unfolding reject_ticket
reject_ticket-SameTables s r sid leg src now = ground arith

-- A handler has opened a session: the map `m` is the one before the call.
pub record Opened (created : Bool) (s : Server) (token : Text) (ses : Session)
    (m : Map Text Session) : Type 0 where
  pub valid : Accounted s.max_sessions s.max_legs_per_ip m s.legs_per_ip
  pub stored : (now : Session) → insert token now s.sessions ≡ insert token now m
  pub at : legs_at (lookup token m) ≡ ses.legs
  pub space : lookup token m ≡ none → length m < s.max_sessions
  pub dropped : (created && length ses.legs == 0) ≡ true → delete token s.sessions ≡ m
  pub same_map : (created && length ses.legs == 0) ≡ false → s.sessions ≡ m

pub found-Opened :
    (s : Server) (token : Text) (ses : Session)
    → IsAccounted s
    → lookup token s.sessions ≡ some ses
    → Opened false s token ses s.sessions
found-Opened s token ses v e = record {
  valid = v;
  stored = λ now. refl;
  at = ap legs_at e;
  space = λ n. absurd (ground arith);
  dropped = λ h. absurd (ground arith);
  same_map = λ h. refl;
}

pub created-Opened :
    (s : Server) (token : Text) (now : ℕ)
    → IsAccounted s
    → lookup token s.sessions ≡ none
    → length s.sessions < s.max_sessions
    → let ses = new_session token now in
      Opened true (record s { sessions = insert token ses s.sessions }) token ses s.sessions
created-Opened s token now v e space = record {
  valid = v;
  stored = λ next. insert-insert token (new_session token now) next s.sessions;
  at = ap legs_at e;
  space = λ n. space;
  dropped = λ h. delete-insert token (new_session token now) s.sessions e;
  same_map = λ h. absurd (ground arith);
}

-- To refuse the leg puts the map back.
pub drop_if_empty-IsAccounted :
    (created : Bool) (s s' : Server) (token : Text) (ses : Session) (m : Map Text Session)
    → Opened created s token ses m
    → SameTables s s'
    → IsAccounted (drop_if_empty created token ses s')
unfolding drop_if_empty
drop_if_empty-IsAccounted created s s' token ses m o (a, b, c, d) =
    elim (Bool-cases (created && length ses.legs == 0)) [
      | inl e ↦ rw (e, drop_if_empty) (rw (a, o.dropped e, b, c, d) o.valid)
      | inr e ↦ rw (e, drop_if_empty) (rw (a, o.same_map e, b, c, d) o.valid)
    ]

pub Claims-SameTables :
    (s s' t : Server) (token acct : Text) (ses : Session)
    → SameTables s' t
    → Claims s s' token acct ses
    → Claims s t token acct ses
Claims-SameTables s s' t token acct ses (a, b, c, d) k = record {
  now = k.now;
  stored = a ∙ k.stored;
  charged = b ∙ k.charged;
  longer = k.longer;
  more = k.more;
  same_sessions = c ∙ k.same_sessions;
  same_legs = d ∙ k.same_legs;
}

-- A session that has a leg is one that stood in the map before the call.
pub Opened-IsAccounted :
    (created : Bool) (s s' : Server) (token : Text) (ses : Session) (m : Map Text Session)
    → Opened created s token ses m
    → (length ses.legs == 0) ≡ false
    → SameTables s s'
    → IsAccounted s'
Opened-IsAccounted created s s' token ses m o some_leg (a, b, c, d) =
    rw (a, o.same_map (ground arith), b, c, d) o.valid
