-- ===== src/Firewall/Batch.antt =====
-- `buildBatch` of internal/nft/nft_linux.go: the messages of one atomic batch. The messages are
-- numbered in order, and the last before the end asks for an acknowledgement.
use buddynet.Support.{
  ℕ, suc, ◌+◌, ◌*◌, List, [], ◌∷◌, ◌++◌, Text, text_key, codes, Map, lookup, length, Option, none,
  some, false, ◌==◌, if◌then◌else◌,
}
use buddynet.Scope.{Scope}
use buddynet.Firewall.{Host, nl_attr_be32, nl_attr_str_z, nl_nested}
use buddynet.Firewall.Rules.{rule_exprs, forward_exprs, nf_accept}

-- A message before it is numbered: its type, its flags and its attributes.
pub record Inner : Type 0 where
  pub msg : ℕ
  pub flags : ℕ
  pub attrs : Text

abbrev pub subsys_nftables : ℕ
subsys_nftables = 10

abbrev pub batch_begin : ℕ
batch_begin = 16

abbrev pub batch_end : ℕ
batch_end = 17

-- `nfnlSubsysNftables<<8 | msg`
abbrev pub nft : ℕ → ℕ
nft msg = subsys_nftables * 256 + msg

-- NLM_F_REQUEST, NLM_F_ACK, NLM_F_CREATE and NLM_F_APPEND; the flags of a message have no bit twice.
abbrev pub request : ℕ
request = 1

abbrev pub ack : ℕ
ack = 4

abbrev pub create : ℕ
create = 1 + 1_024

abbrev pub append_flag : ℕ
append_flag = 2_048

abbrev pub inet : ℕ
inet = 1

abbrev pub local_in : ℕ
local_in = 1

abbrev pub forward_hook : ℕ
forward_hook = 2

abbrev pub table_name : Text
table_name = codes "buddynet"

abbrev pub chain_name : Text
chain_name = codes "in"

abbrev pub fwd_chain_name : Text
fwd_chain_name = codes "fwd"

-- `scopes[ifName]`, the zero value if it is not there.
abbrev pub scope_or_empty : Option Scope → Scope
scope_or_empty (some s) = s
scope_or_empty none = record { all = false; ports = [] }

abbrev pub scope_at : Text → Map Text Scope → Scope
scope_at name scopes = scope_or_empty (lookup name scopes)

module _ (host : Host) where
  -- nlmsghdr, nfgenmsg with the family and `res_id`, and the attributes.
  unfoldable pub nft_message : ℕ → ℕ → ℕ → ℕ → Text → Text → Text
  nft_message msg flags seq family res_id attrs =
      let body = family ∷ 0 ∷ res_id ++ attrs in
      host.put32 (16 + length body)
      ++ (host.put16 msg ++ (host.put16 flags ++ (host.put32 seq ++ (host.put32 0 ++ body))))

  unfoldable pub batch_delim : ℕ → ℕ → Text
  unfolding nft_message
  batch_delim msg seq = nft_message msg request seq 0 (0 ∷ subsys_nftables ∷ []) []

  unfoldable pub table_attr : Text
  table_attr = nl_attr_str_z host 1 table_name

  unfoldable pub new_chain : Text → ℕ → Inner
  new_chain name hook = record {
    msg = 3;
    flags = create;
    attrs =
        nl_attr_str_z host 1 table_name
        ++ (nl_attr_str_z host 3 name
            ++ (nl_nested host 4 (nl_attr_be32 host 1 hook ++ nl_attr_be32 host 2 0)
                ++ (nl_attr_be32 host 5 nf_accept ++ nl_attr_str_z host 7 (codes "filter"))));
  }

  unfoldable pub new_rule : Text → Text → Inner
  new_rule chain exprs = record {
    msg = 6;
    flags = create + append_flag;
    attrs =
        nl_attr_str_z host 1 table_name ++ (nl_attr_str_z host 2 chain ++ nl_nested host 4 exprs);
  }

  -- `appendRules`
  unfoldable pub append_rules : Text → List Text → List Inner
  unfolding new_rule
  append_rules chain [] = []
  append_rules chain (exprs ∷ rules) = new_rule chain exprs ∷ append_rules chain rules

  -- The loop over the interfaces.
  unfoldable pub interface_rules : Map Text Scope → List Text → List Inner
  unfolding append_rules
  interface_rules scopes [] = []
  interface_rules scopes (name ∷ order) =
      append_rules chain_name (rule_exprs host name (scope_at name scopes))
      ++ (append_rules fwd_chain_name (forward_exprs host name) ++ interface_rules scopes order)

  -- The table is made, cleared, and made again with its chains if an interface is scoped.
  unfoldable pub inner_messages : Map Text Scope → List Text → List Inner
  unfolding table_attr new_chain interface_rules
  inner_messages scopes order =
      record { msg = 0; flags = create; attrs = table_attr }
      ∷ record { msg = 2; flags = request; attrs = table_attr }
      ∷ (if length scopes == 0
          then []
          else record { msg = 0; flags = create; attrs = table_attr }
            ∷ new_chain chain_name local_in
            ∷ new_chain fwd_chain_name forward_hook
            ∷ interface_rules scopes order)

  -- The messages from a number on, and the end.
  unfoldable pub numbered : ℕ → List Inner → Text
  unfolding nft_message batch_delim
  numbered seq [] = batch_delim batch_end seq
  numbered seq (m ∷ []) =
      nft_message (nft m.msg) (m.flags + ack) seq inet (0 ∷ 0 ∷ []) m.attrs
      ++ batch_delim batch_end (suc seq)
  numbered seq (m ∷ n ∷ ms) =
      nft_message (nft m.msg) m.flags seq inet (0 ∷ 0 ∷ []) m.attrs ++ numbered (suc seq) (n ∷ ms)

  unfoldable pub build_batch : Map Text Scope → List Text → Text
  unfolding batch_delim inner_messages numbered
  build_batch scopes order = batch_delim batch_begin 1 ++ numbered 2 (inner_messages scopes order)
