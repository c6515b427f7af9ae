-- ===== src/Relay/Accounting/Tickets.antt =====
-- Every bind in ticket mode keeps the caps and the counts of internal/relay/tickets.go.
use buddynet.Support.{
  ℕ, ◌+◌, ◌<◌, ◌≡◌, refl, sym, ap, ◌∙◌, inl, inr, ite, Bool, true, false, not, ◌&&◌, some, List, [],
  ◌∷◌, Text, text_dec, text_key, Map, lookup, insert, length, arith, leb, ◌==◌, if◌then◌else◌,
  Bool-cases, Option-cases,
}
use buddynet.Net.{Addr, Texts}
use buddynet.Ticket.{Payload}
use buddynet.Relay.{
  Leg, Session, Server, Refusal, held, release_ip, warn_hoard, drop_if_empty, add_leg, mark_paired,
  max_legs_per_ses, count_rejected,
}
use buddynet.Relay.Network.{new_session}
use buddynet.Relay.Ticketed
use buddynet.Relay.Ticketed.{bind_ticketed, find_name, move_leg, refuse, migrate, rebind, same}
use buddynet.Relay.Accounting.{
  legs_with, legs_at, IsAccounted, legs_with-le-legs_of, held-insert, held-release_ip,
}
use buddynet.Relay.Accounting.Steps.{
  replace-Accounted, add_leg-Claims, Claims-IsAccounted, SameTables-IsAccounted,
  warn_hoard-SameTables, reject_ticket-SameTables, Opened, found-Opened, created-Opened,
  drop_if_empty-IsAccounted, Claims-SameTables, Opened-IsAccounted,
}

find_name-length :
    (name : Text) (legs : List Leg) (l : Leg)
    → find_name name legs ≡ some l
    → (length legs == 0) ≡ false
unfolding find_name
find_name-length name [] l h = absurd (ground arith)
find_name-length name (k ∷ legs) l h = ground arith

-- Some leg of the list has the key of the one that was found.
legs_with-find_name :
    (name : Text) (legs : List Leg) (l : Leg)
    → find_name name legs ≡ some l
    → 0 < legs_with l.acct_key legs
unfolding find_name
legs_with-find_name name [] l h = absurd (ground arith)
legs_with-find_name name (k ∷ legs) l h = ground (arith, legs_with-find_name name legs l)

legs_with-move_leg :
    (a name : Text) (src : Addr) (acct : Text) (legs : List Leg) (l : Leg)
    → find_name name legs ≡ some l
    → legs_with a (move_leg name src acct legs) + ite (text_dec l.acct_key a) 1 0
      ≡ legs_with a legs + ite (text_dec acct a) 1 0
unfolding find_name move_leg
legs_with-move_leg a name src acct [] l h = absurd (ground arith)
legs_with-move_leg a name src acct (k ∷ legs) l h =
    ground (arith, legs_with-move_leg a name src acct legs l)

length-move_leg :
    (name : Text) (src : Addr) (acct : Text) (legs : List Leg)
    → length (move_leg name src acct legs) ≡ length legs
unfolding move_leg
length-move_leg name src acct [] = refl
length-move_leg name src acct (k ∷ legs) = ground (arith, length-move_leg name src acct legs)

-- The counts after a charge has moved from one key to another.
moved : Text → Text → Map Text ℕ → Map Text ℕ
moved from to c =
    if same from to
    then c
    else (let released = release_ip from c in insert to (held to released + 1) released)

held-moved :
    (a from to : Text) (c : Map Text ℕ)
    → 0 < held from c
    → held a (moved from to c) + ite (text_dec from a) 1 0 ≡ held a c + ite (text_dec to a) 1 0
unfolding moved
held-moved a from to c h =
    let released = release_ip from c in
    ground (
      arith,
      held-insert a to (held to released + 1) released,
      held-release_ip a from c h,
      held-release_ip to from c h,
    )

-- The session of a leg that was found stood in the map before the call.
Opened-lookup :
    (created : Bool) (s : Server) (token : Text) (ses : Session) (m : Map Text Session)
    → Opened created s token ses m
    → (length ses.legs == 0) ≡ false
    → IsAccounted s
      × ((old : Session) × (lookup token s.sessions ≡ some old) × (old.legs ≡ ses.legs))
Opened-lookup created s token ses m o some_leg =
    let e = o.same_map (ground arith) in
    (
      Opened-IsAccounted created s s token ses m o some_leg (refl, refl, refl, refl),
      elim (Option-cases (lookup token m)) [
        | inl n ↦ absurd (ground (arith, o.at))
        | inr (old, h) ↦ (old, ap (lookup token) e ∙ h, ap legs_at (sym h) ∙ o.at)
      ],
    )

migrate-IsAccounted :
    (texts : Texts) (s : Server) (ses old : Session) (l : Leg) (p : Payload) (src : Addr)
    (acct : Text) (now : ℕ)
    → IsAccounted s
    → lookup p.sid s.sessions ≡ some old
    → old.legs ≡ ses.legs
    → find_name p.leg ses.legs ≡ some l
    → (not (same l.acct_key acct) && leb s.max_legs_per_ip (held acct s.legs_per_ip)) ≡ false
    → IsAccounted (migrate texts s ses l p src acct now).0
unfolding migrate moved
migrate-IsAccounted texts s ses old l p src acct now v e legs found room =
    let next : Session = record ses { legs = move_leg p.leg src acct ses.legs } in
    let charged : 0 < held l.acct_key s.legs_per_ip = omega (
      arith,
      v.mirrored l.acct_key,
      legs_with-le-legs_of l.acct_key p.sid s.sessions old e,
      ap (legs_with l.acct_key) legs,
      legs_with-find_name p.leg ses.legs l found,
    ) in
    replace-Accounted p.sid old next v e
      (length-move_leg p.leg src acct ses.legs ∙ ap length (sym legs))
      (moved l.acct_key acct s.legs_per_ip)
      (λ a. omega (
        arith,
        held-moved a l.acct_key acct s.legs_per_ip charged,
        legs_with-move_leg a p.leg src acct ses.legs l found,
        ap (legs_with a) legs,
      ))
      (λ a.
        ground
          (arith, v.capped a, v.capped acct, held-moved a l.acct_key acct s.legs_per_ip charged))

refuse-IsAccounted :
    (s : Server) (r : Refusal) (p : Payload) (src : Addr) (now : ℕ)
    → IsAccounted s
    → IsAccounted (refuse s r p src now).0
unfolding refuse
refuse-IsAccounted s r p src now v =
    SameTables-IsAccounted (count_rejected s) (refuse s r p src now).0
      (reject_ticket-SameTables (count_rejected s) r p.sid p.leg (some src) now) v

module _ (texts : Texts) (created : Bool) (s : Server) (ses : Session) (p : Payload) (src : Addr)
    (acct : Text) (now : ℕ) (m : Map Text Session) (o : Opened created s p.sid ses m) where
  claim-IsAccounted :
      length ses.legs < max_legs_per_ses
      → held acct s.legs_per_ip < s.max_legs_per_ip
      → IsAccounted (Ticketed.claim texts s ses p src acct now).0
  unfolding Ticketed.claim
  claim-IsAccounted short room =
      let (ses', s₁) = add_leg texts s p.sid ses src acct p.leg p.epk in
      let s' = (Ticketed.claim texts s ses p src acct now).0 in
      Claims-IsAccounted s s' p.sid acct ses m o.valid o.stored o.at o.space short room (
        Claims-SameTables s (mark_paired p.sid ses' s₁) s' p.sid acct ses (refl, refl, refl, refl)
          (add_leg-Claims texts s p.sid ses src acct p.leg p.epk))

  rebind-IsAccounted :
      (l : Leg)
      → find_name p.leg ses.legs ≡ some l
      → IsAccounted (rebind texts created s ses l p src acct now).0
  unfolding rebind
  rebind-IsAccounted l found =
      let (v, place) =
        Opened-lookup created s p.sid ses m o (find_name-length p.leg ses.legs l found) in
      let (old, e, legs) = place in
      let full = not (same l.acct_key acct) && leb s.max_legs_per_ip (held acct s.legs_per_ip) in
      let here = same (texts.addr_string l.addr) (texts.addr_string src) in
      let emptied = drop_if_empty-IsAccounted created s s p.sid ses m o (refl, refl, refl, refl) in
      elim (Bool-cases (not (same l.epk p.epk))) [
        | inl a ↦ rw (a, rebind) (refuse-IsAccounted _ _ p src now emptied)
        | inr a ↦ elim (Bool-cases here) [
          | inl b ↦ rw (a, b, rebind) v
          | inr b ↦ elim (Bool-cases full) [
            | inl c ↦ rw (a, b, c, rebind) (refuse-IsAccounted s _ p src now v)
            | inr c ↦
                rw (a, b, c, rebind)
                  (migrate-IsAccounted texts s ses old l p src acct now v e legs found c)
          ]
        ]
      ]

  join-IsAccounted : IsAccounted (Ticketed.join texts created s ses p src acct now).0
  unfolding Ticketed.join
  join-IsAccounted =
      let drop = drop_if_empty-IsAccounted created s in
      let hoard : Server = record s { stat_hoard = s.stat_hoard + 1 } in
      let warned = (warn_hoard hoard acct now).0 in
      elim (Option-cases (find_name p.leg ses.legs)) [
        | inr (l, e) ↦ rw (e, Ticketed.join) (rebind-IsAccounted l e)
        | inl e ↦ elim (Bool-cases (leb max_legs_per_ses (length ses.legs))) [
          | inl f ↦
              rw (e, f, Ticketed.join)
                (refuse-IsAccounted (drop_if_empty created p.sid ses s) _ p src now
                  (drop s p.sid ses m o (refl, refl, refl, refl)))
          | inr f ↦ elim (Bool-cases (leb s.max_legs_per_ip (held acct s.legs_per_ip))) [
            | inl g ↦
                rw (e, f, g, Ticketed.join)
                  (refuse-IsAccounted (drop_if_empty created p.sid ses warned) _ p src now
                    (drop warned p.sid ses m o (warn_hoard-SameTables hoard acct now)))
            | inr g ↦ rw (e, f, g, Ticketed.join) (claim-IsAccounted (ground arith) (ground arith))
          ]
        ]
      ]

-- A bind in ticket mode, whether it claims a leg, keeps it alive, moves it to a new address or is
-- refused, keeps the counts and the caps, and leaves no session without a leg.
pub bind_ticketed-IsAccounted :
    (texts : Texts) (s : Server) (p : Payload) (src : Addr) (acct : Text) (now : ℕ)
    → IsAccounted s
    → IsAccounted (bind_ticketed texts s p src acct now).0
unfolding bind_ticketed
bind_ticketed-IsAccounted texts s p src acct now v =
    let fresh = new_session p.sid now in
    elim (Option-cases (lookup p.sid s.sessions)) [
      | inr (ses, e) ↦
          rw (e, bind_ticketed)
            (join-IsAccounted texts false s ses p src acct now s.sessions
              (found-Opened s p.sid ses v e))
      | inl e ↦ elim (Bool-cases (leb s.max_sessions (length s.sessions))) [
        | inl f ↦ rw (e, f, bind_ticketed) (refuse-IsAccounted s _ p src now v)
        | inr f ↦
            rw (e, f, bind_ticketed)
              (join-IsAccounted texts true (record s { sessions = insert p.sid fresh s.sessions })
                fresh p src acct now s.sessions (created-Opened s p.sid now v e (ground arith)))
      ]
    ]
