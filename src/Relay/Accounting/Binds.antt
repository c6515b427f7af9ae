-- ===== src/Relay/Accounting/Binds.antt =====
-- Every bind in network mode keeps the caps and the counts of
-- internal/relay/server.go.
use buddynet.Support.{
  ℕ, ◌<◌, ◌≡◌, refl, inl, inr, Bool, true, false, some, List, [], ◌∷◌, Text, text_key, Map, lookup,
  insert, length, arith, leb, ◌==◌, Bool-cases, Option-cases,
}
use buddynet.Net.{Addr, Texts}
use buddynet.Relay.{Leg, Session, Server, held, add_leg, mark_paired, max_legs_per_ses}
use buddynet.Relay.Network
use buddynet.Relay.Network.{bind_network_mode, new_session, find_addr}
use buddynet.Relay.Accounting.{IsAccounted}
use buddynet.Relay.Accounting.Steps.{
  add_leg-Claims, Claims-IsAccounted, warn_hoard-SameTables, Opened, found-Opened, created-Opened,
  drop_if_empty-IsAccounted, Claims-SameTables, Opened-IsAccounted,
}

find_addr-length :
    (texts : Texts) (key : Text) (legs : List Leg) (l : Leg)
    → find_addr texts key legs ≡ some l
    → (length legs == 0) ≡ false
unfolding find_addr
find_addr-length texts key [] l h = absurd (ground arith)
find_addr-length texts key (k ∷ legs) l h = ground arith

module _ (texts : Texts) (created : Bool) (s : Server) (token : Text) (ses : Session) (src : Addr)
    (acct : Text) (now : ℕ) (m : Map Text Session) (o : Opened created s token ses m) where
  claim-IsAccounted :
      length ses.legs < max_legs_per_ses
      → held acct s.legs_per_ip < s.max_legs_per_ip
      → IsAccounted (Network.claim texts s token ses src acct now).0
  unfolding Network.claim
  claim-IsAccounted short room =
      let (ses', s₁) = add_leg texts s token ses src acct [] [] in
      let s' = (Network.claim texts s token ses src acct now).0 in
      Claims-IsAccounted s s' token acct ses m o.valid o.stored o.at o.space short room (
        Claims-SameTables s (mark_paired token ses' s₁) s' token acct ses (refl, refl, refl, refl)
          (add_leg-Claims texts s token ses src acct [] []))

  join-IsAccounted : IsAccounted (Network.join texts created s token ses src acct now).0
  unfolding Network.join
  join-IsAccounted =
      let drop = drop_if_empty-IsAccounted created s in
      elim (Option-cases (find_addr texts (texts.addr_string src) ses.legs)) [
        | inr (l, e) ↦
            rw (e, Network.join)
              (Opened-IsAccounted created s s token ses m o
                (find_addr-length texts (texts.addr_string src) ses.legs l e)
                (refl, refl, refl, refl))
        | inl e ↦ elim (Bool-cases (leb max_legs_per_ses (length ses.legs))) [
          | inl f ↦ rw (e, f, Network.join) (drop _ token ses m o (refl, refl, refl, refl))
          | inr f ↦ elim (Bool-cases (leb s.max_legs_per_ip (held acct s.legs_per_ip))) [
            | inl g ↦
                rw (e, f, g, Network.join) (drop _ token ses m o (warn_hoard-SameTables _ acct now))
            | inr g ↦ rw (e, f, g, Network.join) (claim-IsAccounted (ground arith) (ground arith))
          ]
        ]
      ]

-- A bind in network mode, on every branch, keeps the counts and the caps, and leaves no session
-- without a leg.
pub bind_network_mode-IsAccounted :
    (texts : Texts) (s : Server) (token : Text) (src : Addr) (acct : Text) (now : ℕ)
    → IsAccounted s
    → IsAccounted (bind_network_mode texts s token src acct now).0
unfolding bind_network_mode
bind_network_mode-IsAccounted texts s token src acct now v =
    elim (Option-cases (lookup token s.sessions)) [
      | inr (ses, e) ↦
          rw (e, bind_network_mode)
            (join-IsAccounted texts false s token ses src acct now _ (found-Opened s token ses v e))
      | inl e ↦ elim (Bool-cases (leb s.max_sessions (length s.sessions))) [
        | inl f ↦ rw (e, f, bind_network_mode) v
        | inr f ↦
            rw (e, f, bind_network_mode)
              (join-IsAccounted texts true
                (record s { sessions = insert token (new_session token now) s.sessions }) token
                (new_session token now) src acct now s.sessions
                (created-Opened s token now v e (ground arith)))
      ]
    ]
