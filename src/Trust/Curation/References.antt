-- ===== src/Trust/Curation/References.antt =====
-- The key that `resolveKeyRef` of internal/role/peerscmd.go finds for a reference.
use buddynet.Support.{
  ◌≡◌, ◌⊎◌, refl, sym, ap, ◌∙◌, inl, inr, true, false, ◌&&◌, ◌||◌, some, List, [], ◌∷◌, Text,
  text_dec, arith, Bool-cases, Option-cases,
}
use buddynet.Net.{Texts}
use buddynet.Ticket.{Stdlib, same}
use buddynet.Handshake.Admission.{Codec}
use buddynet.Supervisor.Manifest.{has_text}
use buddynet.Trust.Curation.{
  Yaml, Files, has_prefix, include, matching, only, decode, known_keys, resolve_key_ref,
}

has_text-include :
    (k : Text) (keys known : List Text)
    → has_text k (include keys known) ≡ (has_text k known || has_text k keys)
unfolding include has_text
has_text-include k [] known = ground arith
has_text-include k (j ∷ keys) known = elim (Bool-cases (has_text j known)) [
  | inl p ↦ rw (p, include) (has_text-include k keys known ∙ listed (text_dec j k) p)
  | inr p ↦ rw (p, include) (has_text-include k keys (j ∷ known) ∙ ground arith)
]
  where
    listed :
        Dec (j ≡ k)
        → has_text j known ≡ true
        → (has_text k known || has_text k keys) ≡ (has_text k known || has_text k (j ∷ keys))
    listed (yes q) p =
        let t : has_text k known ≡ true = ap (λ i. has_text i known) (sym q) ∙ p in rw t refl
    listed (no q) p = ground (arith, q)

has_text-matching :
    (k ref : Text) (known : List Text)
    → has_text k (matching ref known) ≡ (has_prefix k ref && has_text k known)
unfolding matching has_text
has_text-matching k ref [] = ground arith
has_text-matching k ref (j ∷ known) =
    let ih = has_text-matching k ref known in
    elim (text_dec j k) [
      | yes q ↦ elim (Bool-cases (has_prefix j ref)) [
        | inl p ↦
            let t : has_prefix k ref ≡ true = ap (λ i. has_prefix i ref) (sym q) ∙ p in
            ground (arith, p, q, t, ih)
        | inr p ↦
            let t : has_prefix k ref ≡ false = ap (λ i. has_prefix i ref) (sym q) ∙ p in
            ground (arith, p, q, t, ih)
      ]
      | no q ↦ ground (arith, q, ih)
    ]

has_text-only :
    (k key : Text) (keys : List Text) → only keys ≡ some key → has_text k keys ≡ same key k
unfolding has_text
has_text-only k key [] h = cc
has_text-only k key (j ∷ []) h = let q : j ≡ key = ground (arith, h) in rw q (ground arith)
has_text-only k key (j ∷ l ∷ keys) h = cc

module _ (std : Stdlib) (codec : Codec) (texts : Texts) (encode_std : Text → Text) (yaml : Yaml)
    (token_key : Text → Text) (header today : Text) where
  -- A reference stands for the key that it is, or for the one known key that begins with it: of all
  -- keys of the manifest, the sessions and the revocations, exactly that one has it as a prefix.
  pub resolve_key_ref-only :
      (f : Files) (ref key k : Text)
      → resolve_key_ref std codec texts encode_std yaml token_key header today f ref ≡ some key
      → ((pin : Text) × (decode std codec texts encode_std yaml token_key header today ref
            ≡ some pin)
          × (encode_std pin ≡ key))
        ⊎ ((keys : List Text) × (known_keys std codec texts encode_std yaml token_key header today f
              ≡ some keys)
            × ((has_prefix k ref && has_text k keys) ≡ same key k))
  unfolding resolve_key_ref has_text
  resolve_key_ref-only f ref key k h =
      elim (Option-cases (decode std codec texts encode_std yaml token_key header today ref)) [
        | inr (pin, d) ↦ inl (pin, d, ground (arith, d, h))
        | inl d ↦
            elim (Option-cases
              (known_keys std codec texts encode_std yaml token_key header today f)) [
                | inl e ↦ absurd (ground (arith, d, e, h))
                | inr (keys, e) ↦
                    let one : only (matching ref (include keys [])) ≡ some key =
                      ground (arith, d, e, h) in
                    inr (
                      keys,
                      e,
                      ap (λ b. has_prefix k ref && b) (sym (has_text-include k keys []))
                          ∙ sym (has_text-matching k ref (include keys []))
                          ∙ has_text-only k key (matching ref (include keys [])) one,
                    )
              ]
      ]
