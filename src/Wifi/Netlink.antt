-- ===== src/Wifi/Netlink.antt =====
-- What mediatek_driver_cmd_nl80211.c takes from libnl: reading attributes out of a message.
-- An attribute is its payload, a list of bytes.
use android_device_gionee_p.Common.{ℕ, List, Option}
use android_device_gionee_p.Common.Int.{ℤ}

abbrev pub Bytes : Type 0
Bytes = List ℕ

abbrev pub Attr : Type 0
Attr = Bytes

-- `tb` of `nla_parse_nested`: the attribute of each number, if the message has it.
abbrev pub Table : Type 0
Table = ℕ → Option Attr

pub record Netlink : Type 0 where
  -- `tb[NL80211_ATTR_TESTDATA]` after `nla_parse` of the message's attributes.
  pub testdata : Bytes → Option Attr
  -- `nla_parse_nested` up to an attribute number; `none` is a non-zero result.
  pub parse_nested : ℕ → Attr → Option Table
  pub nla_get_u8 : Attr → ℕ
  pub nla_get_u16 : Attr → ℕ
  pub nla_get_u32 : Attr → ℕ
  pub nla_get_u64 : Attr → ℕ
  -- The destination after `nla_memcpy(dest, attr, sizeof(dest))`.
  pub nla_memcpy : Bytes → Attr → Bytes
  pub nl_skip : ℤ
