-- ===== src/Firewall/State.antt =====
-- `Apply` and `Remove` of internal/nft/nft_linux.go. `kernel` is the last batch that the kernel took;
-- `sent` is what becomes of this one. The mutex makes each call one step.
use buddynet.Support.{
  Bool, true, false, not, none, some, List, [], ◌∷◌, ◌++◌, Text, text_key, Map, lookup, insert,
  delete, is_some, if◌then◌else◌,
}
use buddynet.Ticket.{same}
use buddynet.Scope.{Scope}
use buddynet.Firewall.{Host}
use buddynet.Firewall.Batch.{build_batch}

pub record State : Type 0 where
  pub scopes : Map Text Scope
  pub order : List Text
  pub kernel : Text

-- What `sendBatch` meets: no error; an error and a batch that the kernel did not take; or a batch that
-- the kernel took and an error after it, where the answer is late or is not understood.
pub data Sent : Type 0 where
  acknowledged refused unanswered : Sent

-- Whether `sendBatch` returned no error.
abbrev pub is_nil : Sent → Bool
is_nil acknowledged = true
is_nil refused = false
is_nil unanswered = false

abbrev pub kernel_after : Sent → Text → Text → Text
kernel_after acknowledged batch kernel = batch
kernel_after refused batch kernel = kernel
kernel_after unanswered batch kernel = batch

-- `order[:len(order)-1]`
unfoldable pub without_last : List Text → List Text
without_last [] = []
without_last (n ∷ []) = []
without_last (n ∷ m ∷ order) = n ∷ without_last (m ∷ order)

-- The first occurrence goes.
unfoldable pub cut_name : Text → List Text → List Text
cut_name name [] = []
cut_name name (n ∷ order) =
    let rest = cut_name name order in if same n name then order else n ∷ rest

module _ (host : Host) where
  -- The result is whether there was no error.
  unfoldable pub apply : State → Text → Scope → Sent → State × Bool
  unfolding without_last
  apply s name scope sent =
      let prev = lookup name s.scopes in
      let order = if not (is_some prev) then s.order ++ name ∷ [] else s.order in
      let scopes = insert name scope s.scopes in
      let kernel = kernel_after sent (build_batch host scopes order) s.kernel in
      if is_nil sent then (record { scopes = scopes; order = order; kernel = kernel }, true) else (
        (elim prev [
          | some p ↦ record { scopes = insert name p scopes; order = order; kernel = kernel }
          | none ↦ record {
            scopes = delete name scopes;
            order = without_last order;
            kernel = kernel;
          }
        ]),
        false,
      )

  unfoldable pub remove : State → Text → Sent → State × Bool
  unfolding cut_name
  remove s name sent =
      if not (is_some (lookup name s.scopes))
      then (s, true)
      else (let scopes = delete name s.scopes in
          let order = cut_name name s.order in
          let kernel = kernel_after sent (build_batch host scopes order) s.kernel in
          (record { scopes = scopes; order = order; kernel = kernel }, is_nil sent))
