-- ===== src/Supervisor/Reload.antt =====
-- What a reload of internal/role/supervisor.go leaves running.
use buddynet.Support.{
  ℕ, ◌+◌, ◌≡◌, ◌≢◌, refl, sym, subst, ◌∙◌, inl, inr, true, false, ◌||◌, Option, none, some, List,
  [], ◌∷◌, Text, text_key, text_dec, Map, lookup, insert, arith, Bool-cases, Option-cases, is_some,
  lookup-insert, IsDistinct, insert-IsDistinct, if◌then◌else◌, All,
}
use buddynet.Scope.{Scope, same_scope}
use buddynet.Supervisor.{
  PeerSpec, Handle, Supervisor, start, wanted, stop, rescope, reconcile, names,
}
use buddynet.Supervisor.Index.{IsSound, start-IsSound, alloc_if-IsAllocated}

pub lookup-stop :
    (want : Map Text PeerSpec) (k : Text) (m : Map Text Handle)
    → lookup k (stop want m).0 ≡ (if is_some (lookup k want) then lookup k m else none)
unfolding stop lookup
lookup-stop want k [] = ground arith
lookup-stop want k ((key, h) ∷ m) = elim (text_dec key k) [
  | yes p ↦ ground (arith, p, lookup-stop want k m)
  | no p ↦ ground (arith, p, lookup-stop want k m)
]

stop-IsDistinct :
    (want : Map Text PeerSpec) (m : Map Text Handle) → IsDistinct m → IsDistinct (stop want m).0
unfolding stop
stop-IsDistinct want [] d = tt
stop-IsDistinct want ((key, h) ∷ m) d =
    ground (arith, stop-IsDistinct want m, lookup-stop want key m)

pub stop-IsSound :
    (want : Map Text PeerSpec) (v : Supervisor)
    → IsSound v
    → IsSound (record v { running = (stop want v.running).0 })
stop-IsSound want v w = record {
  once = stop-IsDistinct want v.running w.once;
  apart = w.apart;
  injective = w.injective;
  indexed = λ k h f. ground (arith, lookup-stop want k v.running, w.indexed k h, f);
  followed = λ k h f. ground (arith, lookup-stop want k v.running, w.followed k h, f);
  young = λ k h f. ground (arith, lookup-stop want k v.running, w.young k h, f);
}

lookup-wanted :
    (k : Text) (specs : List PeerSpec) (want : Map Text PeerSpec)
    → is_some (lookup k (wanted specs want)) ≡ (names k specs || is_some (lookup k want))
unfolding wanted names
lookup-wanted k [] want = refl
lookup-wanted k (s ∷ specs) want =
    lookup-wanted k specs (insert s.key s want) ∙ ground (arith, lookup-insert s.key k s want)

-- Specs stand under their keys.
abbrev pub IsKeyed : Map Text PeerSpec → Type 0
IsKeyed m = (k : Text) (s : PeerSpec) → lookup k m ≡ some s → s.key ≡ k

wanted-IsKeyed :
    (specs : List PeerSpec) (want : Map Text PeerSpec) → IsKeyed want → IsKeyed (wanted specs want)
unfolding wanted
wanted-IsKeyed [] want h = h
wanted-IsKeyed (s ∷ specs) want h = wanted-IsKeyed specs (insert s.key s want) λ k t f.
    elim (text_dec s.key k) [
      | yes p ↦ ground (arith, lookup-insert s.key k s want, f)
      | no p ↦ ground (arith, lookup-insert s.key k s want, h k t, f)
    ]

pub names-wanted :
    (k : Text) (specs : List PeerSpec) → is_some (lookup k (wanted specs [])) ≡ names k specs
unfolding lookup
names-wanted k specs = lookup-wanted k specs [] ∙ ground arith

pub wanted-IsKeyed_empty : (specs : List PeerSpec) → IsKeyed (wanted specs [])
unfolding lookup
wanted-IsKeyed_empty specs = wanted-IsKeyed specs [] (λ k s h. absurd (ground (arith, h)))

-- An order in which a loop meets the entries of a map.
abbrev pub IsOrder : Map Text PeerSpec → Map Text PeerSpec → Type 0
IsOrder entries m = IsDistinct entries × ((k : Text) → lookup k entries ≡ lookup k m)

pub entries-IsKeyed :
    (entries : Map Text PeerSpec)
    → IsDistinct entries
    → IsKeyed entries
    → All (λ e. e.1.key ≡ e.0) entries
unfolding lookup
entries-IsKeyed [] d h = tt
entries-IsKeyed ((key, s) ∷ entries) d h =
    (h key s (ground arith), entries-IsKeyed entries d.1 λ k t f. h k t (ground (arith, d.0, f)))

module _ (itoa : ℕ → Text) (parse_uint16 : Text → Option ℕ) (flag : Option Scope) where
  -- The scope that a wanted spec has is the worker's.
  abbrev pub IsFollowing : PeerSpec → Option Handle → Type 0
  IsFollowing s none = Unit
  IsFollowing s (some h) = same_scope itoa parse_uint16 h.cell s.expose ≡ true

  same_scope_self : (s : Option Scope) → same_scope itoa parse_uint16 s s ≡ true
  unfolding same_scope
  same_scope_self none = refl
  same_scope_self (some s) = ground arith

  rescope-IsSound :
      (key : Text) (s : PeerSpec) (h : Handle) (v : Supervisor)
      → lookup key v.running ≡ some h
      → IsSound v
      → IsSound (rescope itoa parse_uint16 flag key s h v).0
  unfolding rescope
  rescope-IsSound key s h v e w =
      elim (Bool-cases (same_scope itoa parse_uint16 h.spec.expose s.expose)) [
        | inl f ↦ rw (f, rescope) w
        | inr f ↦
            let h' : Handle = record h {
              cell = s.expose;
              spec = record (h.spec) { expose = s.expose };
            } in
            rw (f, rescope)
              (record {
                once = insert-IsDistinct key h' v.running w.once;
                apart = w.apart;
                injective = w.injective;
                indexed = λ k g p. elim (text_dec key k) [
                  | yes q ↦ ground (arith, w.indexed key h, q)
                  | no q ↦ ground (arith, lookup-insert key k h' v.running, w.indexed k g)
                ];
                followed =
                    λ k g p. ground (arith, lookup-insert key k h' v.running, w.followed k g);
                young = λ k g p.
                    ground (arith, lookup-insert key k h' v.running, w.young k g, w.young key h);
              })
      ]

  -- What the reconciliation of one key establishes.
  pub record IsReconciled (key : Text) (s : PeerSpec) (v v' : Supervisor) : Type 0 where
    pub sound : IsSound v'
    pub runs : is_some (lookup key v'.running) ≡ true
    pub others : (k : Text) → k ≢ key → lookup k v'.running ≡ lookup k v.running
    pub follows : IsFollowing s (lookup key v'.running)
    pub indices : (k : Text) → k ≢ key → lookup k v'.if_index_of ≡ lookup k v.if_index_of

  start-IsReconciled :
      (s : PeerSpec) (v : Supervisor)
      → IsSound v
      → lookup s.key v.running ≡ none
      → IsReconciled s.key s v (start s v).0
  unfolding start
  start-IsReconciled s v w e =
      let h : Handle = record { gen = v.gen + 1; spec = s; cell = s.expose } in
      let r = alloc_if-IsAllocated s.key v.if_index_of in
      let absent : is_some (lookup s.key v.running) ≡ false = ground (arith, e) in
      let placed : lookup s.key (insert s.key h v.running) ≡ some h =
        ground (arith, lookup-insert s.key s.key h v.running) in
      record {
        sound = start-IsSound s v w;
        runs = rw (absent, start) (ground (arith, placed));
        others = λ k d. rw (absent, start) (ground (arith, lookup-insert s.key k h v.running, d));
        follows =
            rw (absent, start) (subst (IsFollowing s) (sym placed) (same_scope_self s.expose));
        indices = λ k d. rw (absent, start) (r.others k d);
      }

  rescope-IsReconciled :
      (key : Text) (s : PeerSpec) (h : Handle) (v : Supervisor)
      → IsSound v
      → lookup key v.running ≡ some h
      → IsReconciled key s v (rescope itoa parse_uint16 flag key s h v).0
  unfolding rescope
  rescope-IsReconciled key s h v w e =
      let h' : Handle = record h {
        cell = s.expose;
        spec = record (h.spec) { expose = s.expose };
      } in
      let sound = rescope-IsSound key s h v e w in
      let placed : lookup key (insert key h' v.running) ≡ some h' =
        ground (arith, lookup-insert key key h' v.running) in
      elim (Bool-cases (same_scope itoa parse_uint16 h.spec.expose s.expose)) [
        | inl f ↦
            let known : IsFollowing s (some h) =
              subst (λ c. same_scope itoa parse_uint16 c s.expose ≡ true) (sym (w.followed key h e))
                f in
            record {
              sound = sound;
              runs = rw (f, rescope) (ground (arith, e));
              others = λ k d. rw (f, rescope) refl;
              follows = rw (f, rescope) (subst (IsFollowing s) (sym e) known);
              indices = λ k d. rw (f, rescope) refl;
            }
        | inr f ↦ record {
          sound = sound;
          runs = rw (f, rescope) (ground (arith, placed));
          others = λ k d. rw (f, rescope) (ground (arith, lookup-insert key k h' v.running, d));
          follows = rw (f, rescope) (subst (IsFollowing s) (sym placed) (same_scope_self s.expose));
          indices = λ k d. rw (f, rescope) refl;
        }
      ]

  pub reconcile-IsReconciled :
      (key : Text) (s : PeerSpec) (v : Supervisor)
      → IsSound v
      → s.key ≡ key
      → IsReconciled key s v (reconcile itoa parse_uint16 flag key s v).0
  unfolding reconcile
  reconcile-IsReconciled key s v w k = elim (Option-cases (lookup key v.running)) [
    | inl e ↦
        rw (e, reconcile)
          (subst (λ j. IsReconciled j s v (start s v).0) k
            (start-IsReconciled s v w (subst (λ j. lookup j v.running ≡ none) (sym k) e)))
    | inr (h, e) ↦ rw (e, reconcile) (rescope-IsReconciled key s h v w e)
  ]
