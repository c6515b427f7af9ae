-- ===== src/Control/Slots.antt =====
-- The connection budget of internal/tunnel/control.go: what its counts mirror, and its caps.
use buddynet.Support.{
  ℕ, suc, ◌+◌, ◌≤◌, ◌<◌, ◌≡◌, ◌⊎◌, refl, ite, inl, inr, Bool, true, ◌||◌, Option, none, some, List,
  [], ◌∷◌, Text, text_dec, text_key, nat_key, ℕ_discrete, Map, lookup, insert, delete,
  lookup-insert, lookup-delete, IsDistinct, insert-IsDistinct, delete-IsDistinct, length,
  length-delete_present, delete_absent, arith, leb, Bool-cases, Option-cases,
}
use buddynet.Net.{Addr, Prefix, Texts}
use buddynet.Relay.{held}
use buddynet.Relay.Accounting.{held-insert, held-release_ip}
use buddynet.Control.{
  Control, new_control, max_ctrl_conns, max_ctrl_conns_per_ip, source_allowed, admit, release,
  note_rejection, ip_key, gate_conn, is_quiet,
}

-- How many slots a key has.
abbrev pub slots_with : Text → Map ℕ Text → ℕ
slots_with a [] = 0
slots_with a ((i, k) ∷ m) = ite (text_dec k a) 1 0 + slots_with a m

slots_with-insert :
    (a : Text) (i : ℕ) (k : Text) (m : Map ℕ Text)
    → lookup i m ≡ none
    → slots_with a (insert i k m) ≡ ite (text_dec k a) 1 0 + slots_with a m
unfolding lookup insert
slots_with-insert a i k [] h = omega arith
slots_with-insert a i k ((j, l) ∷ m) h = ground (arith, slots_with-insert a i k m)

length-insert_absent :
    (i : ℕ) (k : Text) (m : Map ℕ Text) → lookup i m ≡ none → length (insert i k m) ≡ suc (length m)
unfolding lookup insert
length-insert_absent i k [] h = refl
length-insert_absent i k ((j, l) ∷ m) h = ground (arith, length-insert_absent i k m)

slots_with-delete :
    (a : Text) (i : ℕ) (k : Text) (m : Map ℕ Text)
    → IsDistinct m
    → lookup i m ≡ some k
    → slots_with a (delete i m) + ite (text_dec k a) 1 0 ≡ slots_with a m
unfolding lookup delete
slots_with-delete a i k [] d h = absurd (ground arith)
slots_with-delete a i k ((j, l) ∷ m) d h = elim (ℕ_discrete j i) [
  | yes p ↦ ground (arith, p, d, h, delete_absent i m)
  | no p ↦ ground (arith, p, h, slots_with-delete a i k m d.1)
]

-- The counts are those of the slots, and every cap is kept.
pub record IsCounted (s : Control) : Type 0 where
  pub distinct : IsDistinct s.slots
  pub fresh : (i : ℕ) → s.next_slot ≤ i → lookup i s.slots ≡ none
  pub conns : s.conns ≡ length s.slots
  pub mirrored : (a : Text) → held a s.per_ip ≡ slots_with a s.slots
  pub total : s.conns ≤ max_ctrl_conns
  pub capped : (a : Text) → held a s.per_ip ≤ max_ctrl_conns_per_ip

new_control-IsCounted : IsCounted new_control
unfolding lookup held
new_control-IsCounted = record {
  distinct = tt;
  fresh = λ i h. refl;
  conns = refl;
  mirrored = λ a. refl;
  total = omega arith;
  capped = λ a. omega arith;
}

admit-IsCounted : (key : Text) (s : Control) → IsCounted s → IsCounted (admit key s).0
unfolding admit
admit-IsCounted key s w =
    elim (Bool-cases
      (leb max_ctrl_conns s.conns || leb max_ctrl_conns_per_ip (held key s.per_ip))) [
        | inl e ↦
            rw (e, admit)
              (record {
                distinct = w.distinct;
                fresh = w.fresh;
                conns = w.conns;
                mirrored = w.mirrored;
                total = w.total;
                capped = w.capped;
              })
        | inr e ↦
            let i = s.next_slot in
            let free = w.fresh i (omega arith) in
            rw (e, admit)
              (record {
                distinct = insert-IsDistinct i key s.slots w.distinct;
                fresh = λ j h. ground (arith, lookup-insert i j key s.slots, w.fresh j, h);
                conns = omega (arith, w.conns, length-insert_absent i key s.slots free);
                mirrored = λ a. ground (
                  arith,
                  held-insert a key (held key s.per_ip + 1) s.per_ip,
                  w.mirrored a,
                  w.mirrored key,
                  slots_with-insert a i key s.slots free,
                );
                total = ground (arith, e);
                capped = λ a.
                    ground
                      (arith, held-insert a key (held key s.per_ip + 1) s.per_ip, w.capped a, e);
              })
      ]

charged : (k : Text) (i : ℕ) (m : Map ℕ Text) → lookup i m ≡ some k → 0 < slots_with k m
unfolding lookup
charged k i [] h = absurd (ground arith)
charged k i ((j, l) ∷ m) h = ground (arith, charged k i m)

release-IsCounted : (i : ℕ) (s : Control) → IsCounted s → IsCounted (release i s)
unfolding release
release-IsCounted i s w = elim (Option-cases (lookup i s.slots)) [
  | inl e ↦ rw (e, release) w
  | inr (key, e) ↦
      let some_held : 0 < held key s.per_ip =
        omega (arith, w.mirrored key, charged key i s.slots e) in
      rw (e, release)
        (record {
          distinct = delete-IsDistinct i s.slots w.distinct;
          fresh = λ j h. ground (arith, lookup-delete i j s.slots, w.fresh j, h);
          conns = omega (arith, w.conns, length-delete_present i key s.slots w.distinct e);
          mirrored = λ a. ground (
            arith,
            held-release_ip a key s.per_ip some_held,
            w.mirrored a,
            slots_with-delete a i key s.slots w.distinct e,
          );
          total = omega (arith, w.total);
          capped = λ a. ground (arith, held-release_ip a key s.per_ip some_held, w.capped a);
        })
]

note_rejection-IsCounted :
    (now : ℕ) (s : Control) → IsCounted s → IsCounted (note_rejection now s).0
unfolding note_rejection
note_rejection-IsCounted now s w = elim (Bool-cases (is_quiet now s.last_log_at)) [
  | inl e ↦ rw (e, note_rejection) w
  | inr e ↦
      rw (e, note_rejection)
        (record {
          distinct = w.distinct;
          fresh = w.fresh;
          conns = w.conns;
          mirrored = w.mirrored;
          total = w.total;
          capped = w.capped;
        })
]

-- Connections that arrive, and releases that run, each any number of times and in any order.
pub data Step (texts : Texts) (allowed : List Prefix) : Control → Control → Type 0 where
  arrive :
      (s : Control) (verified : Bool) (remote : Option Addr) (shown : Text) (now : ℕ)
      → Step texts allowed s (gate_conn texts allowed verified remote shown now s).0
  gone : (s : Control) (i : ℕ) → Step texts allowed s (release i s)

pub data Reach (texts : Texts) (allowed : List Prefix) (s : Control) : Control → Type 0 where
  here : Reach texts allowed s s
  next :
      {t u : Control} → Reach texts allowed s t → Step texts allowed t u → Reach texts allowed s u

module _ (texts : Texts) (allowed : List Prefix) where
  gate_conn-IsCounted :
      (verified : Bool) (remote : Option Addr) (shown : Text) (now : ℕ) (s : Control)
      → IsCounted s
      → IsCounted (gate_conn texts allowed verified remote shown now s).0
  unfolding gate_conn
  gate_conn-IsCounted verified remote shown now s w =
      let key = ip_key texts remote shown in
      let quiet = note_rejection-IsCounted now s w in
      let taken = admit-IsCounted key s w in
      let refused = note_rejection-IsCounted now (admit key s).0 taken in
      elim (Bool-cases verified) [
        | inr v ↦ rw (v, gate_conn) quiet
        | inl v ↦ elim (Bool-cases (source_allowed texts allowed remote)) [
          | inr f ↦ rw (v, f, gate_conn) quiet
          | inl f ↦ elim (Option-cases (admit key s).1) [
            | inl g ↦ rw (v, f, g, gate_conn) refused
            | inr (i, g) ↦ rw (v, f, g, gate_conn) taken
          ]
        ]
      ]

  Step-IsCounted : {s t : Control} → Step texts allowed s t → IsCounted s → IsCounted t
  Step-IsCounted (arrive s verified remote shown now) w =
      gate_conn-IsCounted verified remote shown now s w
  Step-IsCounted (gone s i) w = release-IsCounted i s w

  from_new : {s t : Control} → Reach texts allowed s t → IsCounted s → IsCounted t
  from_new here w = w
  from_new (next r st) w = Step-IsCounted st (from_new r w)

  -- Whatever connections arrive and whatever releases run, in any order and any number of times,
  -- the counts are those of the slots that are not released, in all and for each source, at most
  -- 256 are open, and at most 16 of one source.
  pub Reach-IsCounted : {s : Control} → Reach texts allowed new_control s → IsCounted s
  Reach-IsCounted r = from_new r new_control-IsCounted

  -- A connection gets a slot only if its address is verified and its source is allowed, and then it
  -- is under both caps; any other connection leaves the slots and the counts as they were.
  pub gate_conn-slot :
      (verified : Bool) (remote : Option Addr) (shown : Text) (now : ℕ) (s : Control)
      → let out = gate_conn texts allowed verified remote shown now s in
        ((out.1 ≡ some s.next_slot)
          × (verified ≡ true)
          × (source_allowed texts allowed remote ≡ true)
          × (s.conns < max_ctrl_conns)
          × (held (ip_key texts remote shown) s.per_ip < max_ctrl_conns_per_ip))
        ⊎ ((out.1 ≡ none)
            × (out.0.conns ≡ s.conns)
            × (out.0.per_ip ≡ s.per_ip)
            × (out.0.slots ≡ s.slots))
  unfolding gate_conn admit note_rejection
  gate_conn-slot verified remote shown now s = elim (Bool-cases verified) [
    | inr v ↦ inr (ground (arith, v))
    | inl v ↦ elim (Bool-cases (source_allowed texts allowed remote)) [
      | inr f ↦ inr (ground (arith, v, f))
      | inl f ↦
          elim (Bool-cases (
            leb max_ctrl_conns s.conns
            || leb max_ctrl_conns_per_ip (held (ip_key texts remote shown) s.per_ip))) [
              | inl e ↦ inr (ground (arith, v, f, e))
              | inr e ↦ inl (ground (arith, v, f, e))
            ]
    ]
  ]
