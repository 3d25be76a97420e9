-- ===== src/Wifi/TestMode/Wapi.antt =====
-- `wpa_driver_nl80211_set_wapi_key` and `wpa_driver_nl80211_send_msg` of
-- mediatek_driver_cmd_nl80211.c, under CONFIG_WAPI_SUPPORT. The fields' sizes, and
-- `IW_ENCODE_SEQ_MAX_SIZE`, are other headers'.
use android_device_gionee_p.Common.{
  ℕ, suc, ◌*◌, ◌-◌, ◌%◌, ◌^◌, [], ◌∷◌, Bool, true, false, ◌&&◌, Option, none, some, ltb, leb, ◌==◌,
  if◌then◌else◌, take,
}
use android_device_gionee_p.Common.Int.{ℤ, pos, negsuc, neg_ℕ, ltb_ℤ}
use android_device_gionee_p.Wifi.Netlink.{Bytes, Netlink}
use android_device_gionee_p.Wifi.TestMode.{
  Config, Sizes, Header, WapiParams, wapi_key, Radio, testmode, versioned,
}

-- The arguments: a pointer is null, or leads to bytes.
pub record WapiKey : Type 0 where
  pub addr : Option Bytes
  pub key_idx : ℤ
  pub set_tx : Bool
  pub seq : Option Bytes
  pub seq_len : ℕ
  pub key : Option Bytes
  pub key_len : ℕ

abbrev pub broadcast : Bytes
broadcast = 255 ∷ 255 ∷ 255 ∷ 255 ∷ 255 ∷ 255 ∷ []

abbrev pub equal : Bytes → Bytes → Bool
equal [] [] = true
equal (a ∷ rest) (b ∷ others) = a == b && equal rest others
equal _ _ = false

-- No address, or the broadcast address, is of a group key.
abbrev pub is_group : Option Bytes → Bool
is_group none = true
is_group (some addr) = equal addr broadcast

abbrev pub addr_of : Option Bytes → Bytes
addr_of none = broadcast
addr_of (some addr) = addr

-- `if (p && len) os_memcpy(…, p, len)`, into a field that was cleared.
abbrev pub copied_bytes : Option Bytes → ℕ → Bytes
copied_bytes none len = []
copied_bytes (some bytes) len = take len bytes

abbrev pub copied_len : Option Bytes → ℕ → ℕ
copied_len none len = 0
copied_len (some bytes) len = len

abbrev pub suc_ℤ : ℤ → ℤ
suc_ℤ (pos n) = pos (suc n)
suc_ℤ (negsuc n) = neg_ℕ n

-- A number stored into a field of some bits.
abbrev pub stored_bits : ℕ → ℤ → ℕ
stored_bits bits (pos n) = n % 2 ^ bits
stored_bits bits (negsuc n) = 2 ^ bits - 1 - n % 2 ^ bits

-- `ext_flags` is the two flags, and `alg` is always `IW_ENCODE_ALG_SMS4`.
unfoldable pub wapi_params : Sizes → WapiKey → WapiParams
wapi_params sizes k = record {
  key_index = stored_bits sizes.key_index_bits (suc_ℤ k.key_idx);
  key_len = k.key_len % 2 ^ sizes.key_len_bits;
  group_key = is_group k.addr;
  set_tx_key = k.set_tx;
  ext_addr = addr_of k.addr;
  ext_key = copied_bytes k.key k.key_len;
  ext_key_len = copied_len k.key k.key_len % 2 ^ sizes.ext_key_len_bits;
  tx_seq = copied_bytes k.seq k.seq_len;
}

-- Whether the copies stay inside of their fields.
abbrev pub in_bounds : Sizes → WapiKey → Bool
in_bounds sizes k =
    leb (copied_len k.key k.key_len) sizes.wapi_key_room
    && leb (copied_len k.seq k.seq_len) sizes.wapi_seq_room

module _ (nl : Netlink) (config : Config) (sizes : Sizes) where
  -- `none` is a copy past the end of a field.
  unfoldable pub set_wapi_key : WapiKey → Radio → Option (ℤ × Radio)
  unfolding testmode wapi_params
  set_wapi_key k r =
      let header : Header = record { index = versioned 2; buflen = sizes.wapi_size } in
      if ltb (sizes.iw_encode_seq_max_size * 2) k.seq_len
      then some (negsuc 0, r)
      else if in_bounds sizes k
      then some (pos 0, (testmode nl config (wapi_key header (wapi_params sizes k)) r).1)
      else none

-- The length of the message is all that is read.
unfoldable pub send_msg : ℤ → ℤ
send_msg msg_in_len = if ltb_ℤ (pos 1024) msg_in_len then negsuc 0 else pos 0
