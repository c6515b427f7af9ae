-- ===== src/Firewall.antt =====
-- internal/nft/nft_linux.go: the nftables rules that hold a buddy to its exposure scope, as the bytes
-- of netlink attributes. binary.NativeEndian is the parameter `Host`, the order of the bytes of a
-- machine word. The rules of an interface are in Rules, the batch in Batch, `Apply` and `Remove` in
-- State.
pub mod Rules
pub mod Batch
pub mod State
pub mod Kept
pub mod Attributes
mod Tests
use buddynet.Support.{
  ℕ, zero, suc, ◌+◌, ◌-◌, ◌*◌, ◌/◌, ◌%◌, List, [], ◌∷◌, ◌++◌, Text, codes, length, take,
}

-- What `nativeEndian` writes.
pub record Host : Type 0 where
  pub put16 : ℕ → Text
  pub put32 : ℕ → Text

abbrev pub zeros : ℕ → Text
zeros zero = []
zeros (suc n) = 0 ∷ zeros n

-- `(l + 3) &^ 3`
abbrev pub aligned : ℕ → ℕ
aligned l = (l + 3) / 4 * 4

-- binary.BigEndian
abbrev pub be32 : ℕ → Text
be32 v = v / 16_777_216 % 256 ∷ v / 65_536 % 256 ∷ v / 256 % 256 ∷ v % 256 ∷ []

abbrev pub be16 : ℕ → Text
be16 v = v / 256 % 256 ∷ v % 256 ∷ []

abbrev pub word16 : ℕ
word16 = 65_536

-- NLA_F_NESTED
abbrev pub nested_flag : ℕ
nested_flag = 32_768

module _ (host : Host) where
  -- A type, a length and a payload that is padded to a multiple of four.
  unfoldable pub nl_attr : ℕ → Text → Text
  nl_attr typ payload =
      let l = 4 + length payload in
      host.put16 (l % word16) ++ (host.put16 typ ++ (payload ++ zeros (aligned l - l)))

  unfoldable pub nl_attr_be32 : ℕ → ℕ → Text
  unfolding nl_attr
  nl_attr_be32 typ v = nl_attr typ (be32 v)

  unfoldable pub nl_attr_str_z : ℕ → Text → Text
  unfolding nl_attr
  nl_attr_str_z typ s = nl_attr typ (s ++ 0 ∷ [])

  -- No type that the source nests has the flag.
  unfoldable pub nl_nested : ℕ → Text → Text
  unfolding nl_attr
  nl_nested typ payload = nl_attr (typ + nested_flag) payload

  unfoldable pub expr : Text → Text → Text
  unfolding nl_attr_str_z nl_nested
  expr name body = nl_nested 1 (nl_attr_str_z 1 name ++ nl_nested 2 body)

  unfoldable pub data_value : ℕ → Text → Text
  unfolding nl_nested nl_attr
  data_value typ b = nl_nested typ (nl_attr 1 b)

  -- `op` is 0 for equality and 1 for inequality.
  unfoldable pub expr_cmp : ℕ → Text → Text
  unfolding expr nl_attr_be32 data_value
  expr_cmp op value =
      expr (codes "cmp") (nl_attr_be32 1 1 ++ nl_attr_be32 2 op ++ data_value 3 value)

  -- IFNAMSIZ bytes, of a name that is cut or padded.
  abbrev pub if_name_size : ℕ
  if_name_size = 16

  unfoldable pub pad_name : Text → Text
  pad_name name = take if_name_size name ++ zeros (if_name_size - length name)

  unfoldable pub exprs_iifname : Text → Text
  unfolding expr nl_attr_be32 expr_cmp pad_name
  exprs_iifname name =
      expr (codes "meta") (nl_attr_be32 1 1 ++ nl_attr_be32 2 6) ++ expr_cmp 0 (pad_name name)

  unfoldable pub exprs_l4_proto : ℕ → Text
  unfolding expr nl_attr_be32 expr_cmp
  exprs_l4_proto proto =
      expr (codes "meta") (nl_attr_be32 1 1 ++ nl_attr_be32 2 16) ++ expr_cmp 0 (proto ∷ [])

  unfoldable pub exprs_dport : ℕ → Text
  unfolding expr nl_attr_be32 expr_cmp
  exprs_dport port =
      expr (codes "payload")
        (nl_attr_be32 1 1 ++ nl_attr_be32 2 2 ++ nl_attr_be32 3 2 ++ nl_attr_be32 4 2)
      ++ expr_cmp 0 (be16 port)

  -- ESTABLISHED is bit 1 and RELATED bit 2 of the state.
  unfoldable pub exprs_ct_state_est_rel : Text
  unfolding expr nl_attr_be32 expr_cmp data_value
  exprs_ct_state_est_rel =
      expr (codes "ct") (nl_attr_be32 1 1 ++ nl_attr_be32 2 0)
      ++ expr (codes "bitwise") (
          nl_attr_be32 1 1
          ++ nl_attr_be32 2 1
          ++ nl_attr_be32 3 4
          ++ data_value 4 (host.put32 6)
          ++ data_value 5 (zeros 4))
      ++ expr_cmp 1 (zeros 4)

  -- NF_DROP is 0 and NF_ACCEPT is 1.
  unfoldable pub expr_verdict : ℕ → Text
  unfolding expr nl_attr_be32 nl_nested
  expr_verdict code =
      expr (codes "immediate") (nl_attr_be32 1 0 ++ nl_nested 2 (nl_nested 2 (nl_attr_be32 1 code)))
