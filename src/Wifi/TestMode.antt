-- ===== src/Wifi/TestMode.antt =====
-- Test-mode messages of mediatek_driver_cmd_nl80211.c: `wpa_driver_nl80211_testmode` and the
-- functions that fill its parameter structures.
-- `nlmsg_alloc`, `NLA_PUT` and `send_and_recv_msgs` are wpa_supplicant's and libnl's: the n-th
-- message meets `answer n`. The sizes of the structures are the compiler's, in `Sizes`.
pub mod Sent
pub mod Balance
pub mod Wapi
pub mod Ready
mod Tests
use Prim.Native.Nat.{bit_and, bit_or}
use android_device_gionee_p.Common.{
  ℕ, suc, ◌+◌, ◌-◌, ◌*◌, ◌%◌, ◌^◌, List, [], ◌∷◌, Bool, true, false, ◌&&◌, Option, none, some, ltb,
  ◌==◌, if◌then◌else◌,
}
use android_device_gionee_p.Common.Int.{ℤ, pos, negsuc, ltb_ℤ}
use android_device_gionee_p.Common.State.{State, pure, ◌>>=◌, ◌>>◌}
use android_device_gionee_p.Format.{Text}
use android_device_gionee_p.Wifi.Netlink.{Bytes, Netlink}
use android_device_gionee_p.Wifi.Strings.{to_u32}
use android_device_gionee_p.Wifi.Statistics.{StaStatistics, testmode_sta_statistics_handler}
use android_device_gionee_p.Wifi.Beam.{GoReady, testmode_beamplus_go_ready_handler}
use android_device_gionee_p.Wifi.LinkDetect.{LinkDetect, testmode_sta_link_detect_handler}

-- The build's switches `CONFIG_MTK_POOR_LINK_DETECT`, `CONFIG_HOTSPOT_MGR_SUPPORT`,
-- `CONFIG_WAPI_SUPPORT`, `CONFIG_MTK_P2P_SIGMA` and `CONFIG_MEDIATEK_WIFI_BEAM`, with the numbers
-- that the last one brings.
pub record Config : Type 0 where
  pub poor_link_detect : Bool
  pub hotspot_mgr : Bool
  pub wapi : Bool
  pub p2p_sigma : Bool
  pub beam : Bool
  pub go_ready_attrs : GoReady

pub record Sizes : Type 0 where
  pub sw_cmd_size : ℕ
  pub hotspot_size : ℕ
  pub statistics_size : ℕ
  pub link_detect_size : ℕ
  pub sigma_size : ℕ
  pub wapi_size : ℕ
  -- The bytes of the fields `key` and `tx_seq`, and `IW_ENCODE_SEQ_MAX_SIZE`.
  pub wapi_key_room : ℕ
  pub wapi_seq_room : ℕ
  pub iw_encode_seq_max_size : ℕ
  -- The bits of the fields `key_index`, `key_len` and `extparams.key_len`.
  pub key_index_bits : ℕ
  pub key_len_bits : ℕ
  pub ext_key_len_bits : ℕ

-- `struct wpa_driver_test_mode_info`
pub record Header : Type 0 where
  pub index : ℕ
  pub buflen : ℕ

-- The fields of `struct wpa_driver_wapi_key_params` that are filled, those of `extparams` too. An
-- integer is the number that its bits are, whether or not the field has a sign.
pub record WapiParams : Type 0 where
  pub key_index : ℕ
  pub key_len : ℕ
  pub group_key : Bool
  pub set_tx_key : Bool
  pub ext_addr : Bytes
  pub ext_key : Bytes
  pub ext_key_len : ℕ
  pub tx_seq : Bytes

-- The structures that are handed to `wpa_driver_nl80211_testmode`, each behind its header.
pub data Params : Type 0 where
  sw_cmd : Header → ℕ → ℕ → ℕ → Params
  hotspot : Header → ℕ → Bytes → Params
  get_sta_statistics : Header → Bytes → Params
  get_sta_link_detect : Header → Params
  p2p_sigma_params : Header → ℕ → ℕ → Params
  wapi_key : Header → WapiParams → Params
  -- Filled outside of the repository.
  set_beamplus : Header → Params

abbrev pub header_of : Params → Header
header_of (sw_cmd h set adr dat) = h
header_of (hotspot h blocked bssid) = h
header_of (get_sta_statistics h addr) = h
header_of (get_sta_link_detect h) = h
header_of (p2p_sigma_params h idx value) = h
header_of (wapi_key h params) = h
header_of (set_beamplus h) = h

-- What a message meets: no memory, no room for an attribute, or the result of the exchange with
-- the messages that come back.
pub data Exchange : Type 0 where
  no_message no_room : Exchange
  exchanged : ℤ → List Bytes → Exchange

pub record Radio : Type 0 where
  pub answer : ℕ → Exchange
  pub attempts : ℕ
  -- What was handed to the driver, newest first, and how many messages were never freed.
  pub sent : List Params
  pub leaked : ℕ
  -- The structures that `params.buf` points to.
  pub sta_statistics : StaStatistics
  pub sta_link_detect : LinkDetect
  -- `value` of `struct wpa_driver_set_beamplus_params`.
  pub go_ready : ℕ

-- `BITS(m, n)` over 32 bits.
abbrev pub bits : ℕ → ℕ → ℕ
bits m n = bit_and (2 ^ 32 - 1 - (2 ^ m - 1)) (bit_or (2 ^ n - 1) (2 ^ n))

pub data Handler : Type 0 where
  statistics_handler link_detect_handler no_handler : Handler
  go_ready_handler : GoReady → Handler

-- `switch (index)`, for the handler that is passed on.
unfoldable pub handler_for : Config → ℕ → Handler
handler_for config index =
    if index == 0x10
    then statistics_handler
    else if index == 0x12 && config.beam
    then go_ready_handler config.go_ready_attrs
    else if config.poor_link_detect && index == 0x20
    then link_detect_handler
    else no_handler

module _ (nl : Netlink) where
  -- One message that came back.
  pub handle : Handler → Bytes → Radio → Radio
  handle statistics_handler msg r = record r {
    sta_statistics = (testmode_sta_statistics_handler nl msg r.sta_statistics).1;
  }
  handle link_detect_handler msg r = record r {
    sta_link_detect = (testmode_sta_link_detect_handler nl msg r.sta_link_detect).1;
  }
  handle (go_ready_handler attrs) msg r = record r {
    go_ready = (testmode_beamplus_go_ready_handler nl attrs msg r.go_ready).1;
  }
  handle no_handler msg r = r

  pub handle_all : Handler → List Bytes → Radio → Radio
  unfolding handle
  handle_all h [] r = r
  handle_all h (msg ∷ msgs) r = handle_all h msgs (handle h msg r)

abbrev pub enobufs : ℕ
enobufs = 105

module _ (nl : Netlink) (config : Config) where
  unfoldable pub on_answer : Exchange → Params → State Radio ℤ
  unfolding handle_all handler_for
  on_answer no_message params r = (negsuc 0, r)
  on_answer no_room params r = (negsuc (enobufs - 1), record r { leaked = suc r.leaked })
  on_answer (exchanged result msgs) params r = (
    result,
    handle_all nl (handler_for config (bit_and (header_of params).index (bits 0 23))) msgs
        (record r { sent = params ∷ r.sent }),
  )

  unfoldable pub testmode : Params → State Radio ℤ
  unfolding on_answer
  testmode params r =
      on_answer (r.answer r.attempts) params (record r { attempts = suc r.attempts })

-- `params.hdr.index | (0x01 << 24)`
abbrev pub versioned : ℕ → ℕ
versioned index = bit_or index (1 * 2 ^ 24)

module _ (nl : Netlink) (config : Config) (sizes : Sizes) where
  -- The result of the exchange is dropped.
  unfoldable pub driver_sw_cmd : ℕ → ℕ → ℕ → State Radio ℤ
  unfolding testmode
  driver_sw_cmd set adr dat = do
    testmode nl config (
        sw_cmd (record { index = versioned 1; buflen = sizes.sw_cmd_size })
          (if set == 0 then 0 else 1) adr dat)
    pure (pos 0)

  abbrev pub bssid_of : Option Bytes → Bytes
  bssid_of none = 0 ∷ 0 ∷ 0 ∷ 0 ∷ 0 ∷ 0 ∷ []
  bssid_of (some bssid) = bssid

  unfoldable pub hotspot_block_list_update : Option Bytes → ℕ → State Radio ℤ
  unfolding testmode
  hotspot_block_list_update bssid blocked = testmode nl config (
      hotspot (record { index = versioned 3; buflen = sizes.hotspot_size }) (blocked % 2 ^ 8)
        (bssid_of bssid))

  -- `hwaddr_aton` has read the address, or has refused it.
  unfoldable pub sta_block : Option Bytes → State Radio ℤ
  unfolding hotspot_block_list_update
  sta_block none = pure (negsuc 0)
  sta_block (some bssid) = hotspot_block_list_update (some bssid) 1

  unfoldable pub sta_unblock : Option Bytes → State Radio ℤ
  unfolding hotspot_block_list_update
  sta_unblock none = pure (negsuc 0)
  sta_unblock (some bssid) = hotspot_block_list_update (some bssid) 0

  unfoldable pub wpas_get_sta_statistics : Option Bytes → State Radio ℤ
  unfolding testmode
  wpas_get_sta_statistics addr = testmode nl config (
      get_sta_statistics (record { index = versioned 0x10; buflen = sizes.statistics_size })
        (bssid_of addr))

  unfoldable pub wpas_get_sta_link_detect : State Radio ℤ
  unfolding testmode
  wpas_get_sta_link_detect =
      testmode nl config
        (get_sta_link_detect (record { index = versioned 0x20; buflen = sizes.link_detect_size }))

  unfoldable pub wpas_p2p_sigma_test_mode : ℤ → ℤ → State Radio ℤ
  unfolding testmode
  wpas_p2p_sigma_test_mode index value = testmode nl config (
      p2p_sigma_params (record { index = versioned 1; buflen = sizes.sigma_size }) (to_u32 index)
        (to_u32 value))
