-- ===== src/Relay/Accounting/Reaping.antt =====
-- A tick of the reaper of internal/relay/server.go keeps the counts and the caps.
use buddynet.Support.{
  ℕ, ◌+◌, ◌-◌, ◌≤◌, ◌<◌, ◌≡◌, ◌≢◌, refl, ap, inl, inr, true, not, ◌&&◌, some, List, [], ◌∷◌, Text,
  text_key, Map, lookup, insert, delete, lookup-insert, lookup-delete, IsDistinct, Stands,
  Stands-self, Stands-other, insert-IsDistinct, delete-IsDistinct, length, length-insert_present,
  length-delete-le, arith, ltb, ◌==◌, Bool-cases,
}
use buddynet.Net.{Texts}
use buddynet.Relay.{Leg, Session, Server, held, release_ip}
use buddynet.Relay.Reap.{
  drop_leg, drop_legs, idle_legs, kept_legs, sweep, reap_session, reap_sessions, reap,
}
use buddynet.Relay.Accounting.{
  legs_with, legs_at, Accounted, IsAccounted, legs_of-insert, legs_of-delete, insert-AllSized,
  delete-AllSized, lookup-AllSized, legs_with-le-legs_of, held-release_ip,
}

-- To drop legs changes the counts, and `byAddr`.
record Dropped (legs : List Leg) (s s' : Server) : Type 0 where
  same_sessions : s'.sessions ≡ s.sessions
  same_max : s'.max_sessions ≡ s.max_sessions
  same_legs : s'.max_legs_per_ip ≡ s.max_legs_per_ip
  released :
      ((a : Text) → legs_with a legs ≤ held a s.legs_per_ip)
      → (a : Text) → held a s'.legs_per_ip + legs_with a legs ≡ held a s.legs_per_ip

drop_legs-Dropped :
    (texts : Texts) (legs : List Leg) (s : Server) → Dropped legs s (drop_legs texts legs s)
unfolding drop_legs drop_leg
drop_legs-Dropped texts [] s = record {
  same_sessions = refl;
  same_max = refl;
  same_legs = refl;
  released = λ h a. omega arith;
}
drop_legs-Dropped texts (l ∷ legs) s =
    let d = drop_legs-Dropped texts legs (drop_leg texts l s) in
    record {
      same_sessions = d.same_sessions;
      same_max = d.same_max;
      same_legs = d.same_legs;
      released = λ h a.
          let charged : 0 < held l.acct_key s.legs_per_ip = ground (arith, h l.acct_key) in
          let room : (b : Text) → legs_with b legs ≤ held b (release_ip l.acct_key s.legs_per_ip) =
            λ b. omega (arith, h b, held-release_ip b l.acct_key s.legs_per_ip charged) in
          omega (arith, d.released room a, held-release_ip a l.acct_key s.legs_per_ip charged);
    }

-- The idle legs and the others are the legs.
legs_with-idle_legs :
    (s : Server) (now : ℕ) (a : Text) (legs : List Leg)
    → legs_with a (idle_legs s now legs) + legs_with a (kept_legs s now legs) ≡ legs_with a legs
unfolding idle_legs kept_legs
legs_with-idle_legs s now a [] = omega arith
legs_with-idle_legs s now a (l ∷ legs) = ground (arith, legs_with-idle_legs s now a legs)

length-kept_legs-le :
    (s : Server) (now : ℕ) (legs : List Leg) → length (kept_legs s now legs) ≤ length legs
unfolding kept_legs
length-kept_legs-le s now [] = omega arith
length-kept_legs-le s now (l ∷ legs) = ground (arith, length-kept_legs-le s now legs)

-- A session goes, and the keys of its legs are released.
delete-Accounted :
    {ms ml : ℕ} {m : Map Text Session} {c : Map Text ℕ} (token : Text) (ses : Session)
    → Accounted ms ml m c
    → lookup token m ≡ some ses
    → (c' : Map Text ℕ) → ((a : Text) → held a c' + legs_with a ses.legs ≡ held a c)
    → Accounted ms ml (delete token m) c'
delete-Accounted {ms} {ml} {m} {c} token ses v e c' released = record {
  distinct = delete-IsDistinct token m v.distinct;
  mirrored = λ a. omega (
    arith,
    legs_of-delete a token m v.distinct,
    ap (λ o. legs_with a (legs_at o)) e,
    released a,
    v.mirrored a,
  );
  capped = λ a. omega (arith, released a, v.capped a);
  sized = delete-AllSized token m v.sized;
  bounded = omega (arith, v.bounded, length-delete-le token m);
}

-- Some legs of a session go, and one or more stay.
shrink-Accounted :
    {ms ml : ℕ} {m : Map Text Session} {c : Map Text ℕ} (token : Text) (ses ses' : Session)
    → Accounted ms ml m c
    → lookup token m ≡ some ses
    → (c' : Map Text ℕ)
    → ((a : Text) → held a c' + legs_with a ses.legs ≡ held a c + legs_with a ses'.legs)
    → ((a : Text) → held a c' ≤ held a c)
    → 0 < length ses'.legs
    → length ses'.legs ≤ length ses.legs
    → Accounted ms ml (insert token ses' m) c'
shrink-Accounted {ms} {ml} {m} {c} token ses ses' v e c' released fewer some_leg short =
    let sized = lookup-AllSized token ses m v.sized e in
    record {
      distinct = insert-IsDistinct token ses' m v.distinct;
      mirrored = λ a. omega (
        arith,
        legs_of-insert a token ses' m,
        ap (λ o. legs_with a (legs_at o)) e,
        released a,
        v.mirrored a,
      );
      capped = λ a. omega (arith, fewer a, v.capped a);
      sized = insert-AllSized token ses' m (some_leg, omega arith) v.sized;
      bounded = omega (arith, v.bounded, length-insert_present token ses' ses m e);
    }

module _ (texts : Texts) (token : Text) (ses : Session) (now : ℕ) (s : Server) where
  -- Every leg of the session is charged.
  charged_enough :
      IsAccounted s
      → lookup token s.sessions ≡ some ses
      → (a : Text) → legs_with a ses.legs ≤ held a s.legs_per_ip
  charged_enough v e a = omega (arith, v.mirrored a, legs_with-le-legs_of a token s.sessions ses e)

  sweep-IsAccounted :
      IsAccounted s → lookup token s.sessions ≡ some ses → IsAccounted (sweep texts token ses now s)
  unfolding sweep
  sweep-IsAccounted v e =
      let idle = idle_legs s now ses.legs in
      let kept = kept_legs s now ses.legs in
      let s' = drop_legs texts idle s in
      let d = drop_legs-Dropped texts idle s in
      let parts = λ (a : Text). legs_with-idle_legs s now a ses.legs in
      let back = d.released (λ a. omega (arith, parts a, charged_enough v e a)) in
      elim (Bool-cases (length kept == 0)) [
        | inl none_left ↦
            let nothing : (a : Text) → legs_with a kept ≡ 0 =
              λ a. legs_with-empty a kept none_left in
            rw (none_left, d.same_sessions, d.same_max, d.same_legs)
              (delete-Accounted token ses v e s'.legs_per_ip
                (λ a. omega (arith, back a, parts a, nothing a)))
        | inr some_left ↦
            rw (some_left, d.same_sessions, d.same_max, d.same_legs)
              (shrink-Accounted token ses (record ses { legs = kept }) v e s'.legs_per_ip
                (λ a. omega (arith, back a, parts a)) (λ a. omega (arith, back a)) (ground arith)
                (length-kept_legs-le s now ses.legs))
      ]
    where
      legs_with-empty :
          (a : Text) (legs : List Leg) → (length legs == 0) ≡ true → legs_with a legs ≡ 0
      legs_with-empty a [] h = refl
      legs_with-empty a (l ∷ legs) h = absurd (ground arith)

  reap_session-IsAccounted :
      IsAccounted s
      → lookup token s.sessions ≡ some ses
      → IsAccounted (reap_session texts token ses now s)
  unfolding reap_session
  reap_session-IsAccounted v e =
      let s' = drop_legs texts ses.legs s in
      let d = drop_legs-Dropped texts ses.legs s in
      elim (Bool-cases (not ses.paired && ltb s.pending_pair (now - ses.created))) [
        | inr young ↦ rw (young, reap_session) (sweep-IsAccounted v e)
        | inl old ↦
            rw (old, reap_session)
              (rw (d.same_sessions, d.same_max, d.same_legs)
                (delete-Accounted token ses v e s'.legs_per_ip (d.released (charged_enough v e))))
      ]

  -- The other sessions stay as they are.
  lookup-reap_session :
      (t : Text)
      → t ≢ token
      → lookup t (reap_session texts token ses now s).sessions ≡ lookup t s.sessions
  unfolding reap_session sweep
  lookup-reap_session t ne =
      let idle = idle_legs s now ses.legs in
      let kept = kept_legs s now ses.legs in
      ground (
        arith,
        (drop_legs-Dropped texts idle s).same_sessions,
        (drop_legs-Dropped texts ses.legs s).same_sessions,
        lookup-delete token t s.sessions,
        lookup-insert token t (record ses { legs = kept }) s.sessions,
      )

reap_sessions-IsAccounted :
    (texts : Texts) (entries : Map Text Session) (now : ℕ) (s : Server)
    → IsDistinct entries
    → Stands entries s.sessions
    → IsAccounted s
    → IsAccounted (reap_sessions texts entries now s)
unfolding reap_sessions
reap_sessions-IsAccounted texts [] now s d stands v = v
reap_sessions-IsAccounted texts ((token, ses) ∷ entries) now s d stands v =
    reap_sessions-IsAccounted texts entries now (reap_session texts token ses now s) d.1
      (Stands-other token entries s.sessions _ d.0 (lookup-reap_session texts token ses now s)
        stands.1)
      (reap_session-IsAccounted texts token ses now s v stands.0)

-- A tick of the reaper keeps the counts and the caps: each leg that it drops is released from the
-- key that the leg was charged under, and a session without a leg goes.
pub reap-IsAccounted :
    (texts : Texts) (s : Server) (now : ℕ) → IsAccounted s → IsAccounted (reap texts s now)
unfolding reap
reap-IsAccounted texts s now v =
    reap_sessions-IsAccounted texts s.sessions now s v.distinct (Stands-self s.sessions v.distinct)
      v
