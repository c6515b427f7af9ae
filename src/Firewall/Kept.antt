-- ===== src/Firewall/Kept.antt =====
-- What `Apply` and `Remove` of internal/nft/nft_linux.go keep, and what a failed batch leaves.
use buddynet.Support.{
  ◌≡◌, refl, sym, ap, subst, ◌∙◌, inl, inr, Bool, true, false, not, ◌&&◌, ◌||◌, none, some, List,
  [], ◌∷◌, ◌++◌, Text, text_key, text_dec, Map, lookup, insert, delete, is_some, arith, Bool-cases,
  Option-cases, insert-insert, delete-insert, lookup-insert, lookup-delete,
}
use buddynet.Ticket.{same}
use buddynet.Scope.{Scope}
use buddynet.Supervisor.Manifest.{has_text}
use buddynet.Firewall.{Host}
use buddynet.Firewall.Batch.{build_batch}
use buddynet.Firewall.State.{
  State, Sent, acknowledged, refused, unanswered, is_nil, kernel_after, without_last, cut_name,
  apply, remove,
}

without_last-append : (order : List Text) (n : Text) → without_last (order ++ n ∷ []) ≡ order
unfolding without_last
without_last-append [] n = refl
without_last-append (m ∷ []) n = refl
without_last-append (m ∷ k ∷ order) n = ap (◌∷◌ m) (without_last-append (k ∷ order) n)

-- No name comes twice.
abbrev pub IsOnce : List Text → Type 0
IsOnce [] = Unit
IsOnce (n ∷ order) = (has_text n order ≡ false) × IsOnce order

has_text-append :
    (n k : Text) (order : List Text) → has_text n (order ++ k ∷ []) ≡ (has_text n order || same k n)
unfolding has_text
has_text-append n k [] = ground arith
has_text-append n k (m ∷ order) = ground (arith, has_text-append n k order)

append-IsOnce :
    (k : Text) (order : List Text)
    → has_text k order ≡ false
    → IsOnce order
    → IsOnce (order ++ k ∷ [])
unfolding has_text
append-IsOnce k [] h o = (refl, tt)
append-IsOnce k (m ∷ order) h (f, o) = (
  has_text-append m k order ∙ different (text_dec k m),
  append-IsOnce k order (ground (arith, h)) o,
)
  where
    different : Dec (k ≡ m) → (has_text m order || same k m) ≡ false
    different (yes e) = absurd (ground (arith, h, e))
    different (no e) = ground (arith, f, e)

has_text-cut_name :
    (n k : Text) (order : List Text)
    → IsOnce order
    → has_text n (cut_name k order) ≡ (not (same k n) && has_text n order)
unfolding has_text cut_name
has_text-cut_name n k [] o = ground arith
has_text-cut_name n k (m ∷ order) (f, o) =
    let ih = has_text-cut_name n k order o in
    elim (text_dec m k) [
      | yes e ↦ elim (text_dec k n) [
        | yes q ↦
            let gone : has_text n order ≡ false = ap (λ j. has_text j order) (sym (e ∙ q)) ∙ f in
            ground (arith, e, q, gone)
        | no q ↦ elim (text_dec m n) [
          | yes r ↦ absurd (q (sym e ∙ r))
          | no r ↦ ground (arith, e, q, r)
        ]
      ]
      | no e ↦ elim (text_dec k n) [
        | yes q ↦ elim (text_dec m n) [
          | yes r ↦ absurd (e (r ∙ sym q))
          | no r ↦ ground (arith, e, q, r, ih)
        ]
        | no q ↦ ground (arith, e, q, ih)
      ]
    ]

cut_name-IsOnce : (k : Text) (order : List Text) → IsOnce order → IsOnce (cut_name k order)
unfolding cut_name
cut_name-IsOnce k [] o = tt
cut_name-IsOnce k (m ∷ order) (f, o) = elim (Bool-cases (same m k)) [
  | inl e ↦ rw (e, cut_name) o
  | inr e ↦
      rw (e, cut_name)
        (has_text-cut_name m k order o ∙ ground (arith, f), cut_name-IsOnce k order o)
]

insert_found :
    (name : Text) (p : Scope) (m : Map Text Scope) → lookup name m ≡ some p → insert name p m ≡ m
unfolding lookup insert
insert_found name p [] h = cc
insert_found name p ((n, q) ∷ m) h = elim (text_dec name n) [
  | yes e ↦ ground (arith, e, h)
  | no e ↦ ground (arith, e, h, insert_found name p m)
]

module _ (host : Host) where
  -- An `Apply` that fails leaves the scopes and their order as they were.
  apply_failed :
      (s : State) (name : Text) (scope : Scope) (sent : Sent)
      → is_nil sent ≡ false
      → (batch : Text) × (apply host s name scope sent
          ≡ (record s { kernel = kernel_after sent batch s.kernel }, false))
  unfolding apply
  apply_failed s name scope sent h = elim (Option-cases (lookup name s.scopes)) [
    | inl e ↦ (
      build_batch host (insert name scope s.scopes) (s.order ++ name ∷ []),
      rw (h, e, delete-insert name scope s.scopes e, e, without_last-append s.order name) refl,
    )
    | inr (p, e) ↦ (
      build_batch host (insert name scope s.scopes) s.order,
      rw (h, e, insert-insert name scope p s.scopes, insert_found name p s.scopes e, e) refl,
    )
  ]

  -- The order names the scoped interfaces, each once, and, where the two are in step, the kernel has
  -- their rules.
  pub record IsRendered (s : State) (in_step : Bool) : Type 0 where
    pub rendered : in_step ≡ true → s.kernel ≡ build_batch host s.scopes s.order
    pub named : (n : Text) → has_text n s.order ≡ is_some (lookup n s.scopes)
    pub once : IsOnce s.order

  apply-IsRendered :
      (s : State) (b : Bool) (name : Text) (scope : Scope)
      → IsRendered s b
      → IsRendered (apply host s name scope acknowledged).0 true
  unfolding apply
  apply-IsRendered s b name scope r = elim (Option-cases (lookup name s.scopes)) [
    | inl e ↦
        let absent : has_text name s.order ≡ false = r.named name ∙ ap is_some e in
        rw e (record {
          rendered = λ h. refl;
          named = λ n.
              has_text-append n name s.order ∙ ap (λ b. b || same name n) (r.named n) ∙ scoped n;
          once = append-IsOnce name s.order absent r.once;
        })
    | inr (p, e) ↦
        rw e (record {
          rendered = λ h. refl;
          named = λ n. r.named n ∙ same_names n p e;
          once = r.once;
        })
  ]
    where
      scoped :
          (n : Text)
          → (is_some (lookup n s.scopes) || same name n)
            ≡ is_some (lookup n (insert name scope s.scopes))
      scoped n = elim (text_dec name n) [
        | yes q ↦ ground (arith, q, lookup-insert name n scope s.scopes)
        | no q ↦ ground (arith, q, lookup-insert name n scope s.scopes)
      ]

      same_names :
          (n : Text) (p : Scope)
          → lookup name s.scopes ≡ some p
          → is_some (lookup n s.scopes) ≡ is_some (lookup n (insert name scope s.scopes))
      same_names n p e = elim (text_dec name n) [
        | yes q ↦
            let found : lookup n s.scopes ≡ some p = ap (λ k. lookup k s.scopes) (sym q) ∙ e in
            ground (arith, q, found, lookup-insert name n scope s.scopes)
        | no q ↦ ground (arith, q, lookup-insert name n scope s.scopes)
      ]

  -- After a call: an acknowledged batch brings the kernel into step, and a failed `Apply` whose
  -- batch the kernel did not take leaves it so.
  abbrev pub after_apply : Sent → Bool → Bool
  after_apply acknowledged b = true
  after_apply refused b = b
  after_apply unanswered b = false

  -- A removal that finds no scope sends nothing. `Remove` never puts an interface back, so the
  -- kernel is in step after it where it took the batch.
  abbrev pub after_remove : Bool → Sent → Bool → Bool
  after_remove false sent b = b
  after_remove true acknowledged b = true
  after_remove true refused b = false
  after_remove true unanswered b = true

  failed-IsRendered :
      (s : State) (b : Bool) (sent : Sent) (batch : Text)
      → is_nil sent ≡ false
      → IsRendered s b
      → IsRendered (record s { kernel = kernel_after sent batch s.kernel }) (after_apply sent b)
  failed-IsRendered s b acknowledged batch h r = cc
  failed-IsRendered s b refused batch h r = record {
    rendered = r.rendered;
    named = r.named;
    once = r.once;
  }
  failed-IsRendered s b unanswered batch h r = record {
    rendered = λ e. cc;
    named = r.named;
    once = r.once;
  }

  apply_failed-IsRendered :
      (s : State) (b : Bool) (name : Text) (scope : Scope) (sent : Sent)
      → is_nil sent ≡ false
      → IsRendered s b
      → IsRendered (apply host s name scope sent).0 (after_apply sent b)
  apply_failed-IsRendered s b name scope sent h r =
      let (batch, e) = apply_failed s name scope sent h in
      subst (λ t. IsRendered t (after_apply sent b)) (sym (ap (λ o. o.0) e))
        (failed-IsRendered s b sent batch h r)

  in_step :
      (sent : Sent) (b : Bool) (batch kernel : Text)
      → after_remove true sent b ≡ true
      → kernel_after sent batch kernel ≡ batch
  in_step acknowledged b batch kernel h = refl
  in_step refused b batch kernel h = cc
  in_step unanswered b batch kernel h = refl

  remove-IsRendered :
      (s : State) (b : Bool) (name : Text) (sent : Sent)
      → IsRendered s b
      → IsRendered
          (remove host s name sent).0
          (after_remove (is_some (lookup name s.scopes)) sent b)
  unfolding remove
  remove-IsRendered s b name sent r = elim (Bool-cases (is_some (lookup name s.scopes))) [
    | inr e ↦ rw (e, remove) r
    | inl e ↦
        rw (e, remove)
          (record {
            rendered = λ h. in_step sent b _ s.kernel h;
            named = λ n.
                has_text-cut_name n name s.order r.once
                ∙ ap (λ b. not (same name n) && b) (r.named n)
                ∙ scoped n;
            once = cut_name-IsOnce name s.order r.once;
          })
  ]
    where
      scoped :
          (n : Text)
          → (not (same name n) && is_some (lookup n s.scopes))
            ≡ is_some (lookup n (delete name s.scopes))
      scoped n = elim (text_dec name n) [
        | yes q ↦ ground (arith, q, lookup-delete name n s.scopes)
        | no q ↦ ground (arith, q, lookup-delete name n s.scopes)
      ]

  -- A call, whatever becomes of its batch, and whether the kernel is in step before and after it.
  pub data Step : State → Bool → State → Bool → Type 0 where
    applies :
        (s : State) (b : Bool) (name : Text) (scope : Scope) (sent : Sent)
        → Step s b (apply host s name scope sent).0 (after_apply sent b)
    removes :
        (s : State) (b : Bool) (name : Text) (sent : Sent)
        → Step s b
            (remove host s name sent).0
            (after_remove (is_some (lookup name s.scopes)) sent b)

  pub data Reach (s : State) (b : Bool) : State → Bool → Type 0 where
    here : Reach s b s b
    next : {t u : State} {c d : Bool} → Reach s b t c → Step t c u d → Reach s b u d

  Step-IsRendered : {s t : State} {b c : Bool} → Step s b t c → IsRendered s b → IsRendered t c
  Step-IsRendered (applies s b name scope acknowledged) r = apply-IsRendered s b name scope r
  Step-IsRendered (applies s b name scope refused) r =
      apply_failed-IsRendered s b name scope refused refl r
  Step-IsRendered (applies s b name scope unanswered) r =
      apply_failed-IsRendered s b name scope unanswered refl r
  Step-IsRendered (removes s b name sent) r = remove-IsRendered s b name sent r

  -- Whatever scopes are applied and whatever interfaces are removed, in any order and with any
  -- outcome of each batch, the order of the rules names each scoped interface exactly once; and the
  -- kernel has exactly the rules of the scopes that are held whenever the calls leave it in step. A
  -- call without an error that sends a batch brings it into step. A failed `Apply` leaves it so if
  -- the kernel did not take the batch, and not if it did; a failed `Remove` the other way round.
  pub Reach-IsRendered :
      {s : State} {b : Bool} {t : State} {c : Bool}
      → IsRendered s b
      → Reach s b t c
      → IsRendered t c
  Reach-IsRendered r here = r
  Reach-IsRendered r (next reach st) = Step-IsRendered st (Reach-IsRendered r reach)

  -- A removal that the kernel does not take is forgotten: the call fails and the kernel keeps the
  -- rules, but the interface is scoped no more, so a second removal succeeds and sends nothing.
  pub remove_again :
      (s : State) (name : Text) (p : Scope) (sent : Sent)
      → lookup name s.scopes ≡ some p
      → let first = remove host s name refused in
        (first.1 ≡ false)
        × (first.0.kernel ≡ s.kernel)
        × (remove host first.0 name sent ≡ (first.0, true))
  unfolding remove
  remove_again s name p sent e =
      let gone : lookup name (delete name s.scopes) ≡ none =
        lookup-delete name name s.scopes ∙ ground arith in
      rw (e, remove, gone) (refl, refl, refl)
