-- ===== src/Wifi/Statistics.antt =====
-- The statistics of a station: `struct wpa_driver_sta_statistics_s` of mediatek_driver_nl80211.h
-- and `testmode_sta_statistics_handler` of mediatek_driver_cmd_nl80211.c, which fills it.
pub mod Decode
use android_device_gionee_p.Common.{
  ℕ, suc, ◌+◌, ◌-◌, ◌/◌, List, [], ◌∷◌, Option, none, some, leb, if◌then◌else◌,
}
use android_device_gionee_p.Common.Int.{ℤ, pos, neg_ℕ}
use android_device_gionee_p.Common.State.{State}
use android_device_gionee_p.Format.{Text}
use android_device_gionee_p.Wifi.Netlink.{Bytes, Attr, Table, Netlink}

-- `tx_rate` is a `double`. The handler stores a half of a `u16`; a field that was never stored
-- holds what the stack held, which "%.1f" prints as some text.
pub data Rate : Type 0 where
  halves : ℕ → Rate
  indeterminate : Text → Rate

pub record StaStatistics : Type 0 where
  pub version : ℕ
  pub addr : Bytes
  pub flag : ℕ
  pub link_score : ℕ
  pub per : ℕ
  pub rssi : ℤ
  pub phy_mode : ℕ
  pub tx_rate : Rate
  pub tx_total_cnt : ℕ
  pub tx_exc_threshold_cnt : ℕ
  pub tx_avg_process_time : ℕ
  pub tx_fail_cnt : ℕ
  pub tx_timeout_cnt : ℕ
  pub tx_avg_air_time : ℕ
  -- The bytes of arrays of four `u32`.
  pub tc_buf_full_cnt : Bytes
  pub tc_que_len : Bytes
  pub tc_avg_que_len : Bytes
  pub tc_cur_que_len : Bytes
  pub reserved : Bytes

-- `enum nl80211_testmode_sta_link_statistics_attr`, without its first and last constants.
pub data StaAttr : Type 0 where
  a_version a_mac a_link_score a_flag a_per a_rssi a_phy_mode a_tx_rate : StaAttr
  a_total_cnt a_threshold_cnt a_avg_process_time : StaAttr
  a_fail_cnt a_timeout_cnt a_avg_air_time : StaAttr
  a_tc_empty_cnt a_tc_que_len a_tc_avg_que_len a_tc_cur_que_len a_reserved : StaAttr

abbrev pub number : StaAttr → ℕ
number a_version = 1
number a_mac = 2
number a_link_score = 3
number a_flag = 4
number a_per = 5
number a_rssi = 6
number a_phy_mode = 7
number a_tx_rate = 8
number a_total_cnt = 9
number a_threshold_cnt = 10
number a_avg_process_time = 11
number a_fail_cnt = 12
number a_timeout_cnt = 13
number a_avg_air_time = 14
number a_tc_empty_cnt = 15
number a_tc_que_len = 16
number a_tc_avg_que_len = 17
number a_tc_cur_que_len = 18
number a_reserved = 19

-- `NL80211_TESTMODE_STA_STATISTICS_MAX`
abbrev pub statistics_max : ℕ
statistics_max = 19

-- `((int)n - 220) / 2`; the division of C goes towards 0.
abbrev pub rssi_of : ℕ → ℤ
rssi_of n = if leb 220 n then pos ((n - 220) / 2) else neg_ℕ ((220 - n) / 2)

module _ (nl : Netlink) where
  -- The switch on the attribute's number.
  pub store : StaAttr → Attr → StaStatistics → StaStatistics
  store a_version a s = record s { version = nl.nla_get_u8 a }
  store a_mac a s = record s { addr = nl.nla_memcpy s.addr a }
  store a_link_score a s = record s { link_score = nl.nla_get_u8 a }
  store a_flag a s = record s { flag = nl.nla_get_u32 a }
  store a_per a s = record s { per = nl.nla_get_u8 a }
  store a_rssi a s = record s { rssi = rssi_of (nl.nla_get_u8 a) }
  store a_phy_mode a s = record s { phy_mode = nl.nla_get_u32 a }
  store a_tx_rate a s = record s { tx_rate = halves (nl.nla_get_u16 a) }
  store a_fail_cnt a s = record s { tx_fail_cnt = nl.nla_get_u32 a }
  store a_timeout_cnt a s = record s { tx_timeout_cnt = nl.nla_get_u32 a }
  store a_avg_air_time a s = record s { tx_avg_air_time = nl.nla_get_u32 a }
  store a_total_cnt a s = record s { tx_total_cnt = nl.nla_get_u32 a }
  store a_threshold_cnt a s = record s { tx_exc_threshold_cnt = nl.nla_get_u32 a }
  store a_avg_process_time a s = record s { tx_avg_process_time = nl.nla_get_u32 a }
  store a_tc_empty_cnt a s = record s { tc_buf_full_cnt = nl.nla_memcpy s.tc_buf_full_cnt a }
  store a_tc_que_len a s = record s { tc_que_len = nl.nla_memcpy s.tc_que_len a }
  store a_tc_avg_que_len a s = record s { tc_avg_que_len = nl.nla_memcpy s.tc_avg_que_len a }
  store a_tc_cur_que_len a s = record s { tc_cur_que_len = nl.nla_memcpy s.tc_cur_que_len a }
  store a_reserved a s = record s { reserved = nl.nla_memcpy s.reserved a }

  -- `if (sinfo[i])`
  pub store_present : StaAttr → Option Attr → StaStatistics → StaStatistics
  store_present attr none s = s
  store_present attr (some a) s = store attr a s

  pub store_all : List StaAttr → Table → StaStatistics → StaStatistics
  store_all [] sinfo s = s
  store_all (attr ∷ attrs) sinfo s =
      store_all attrs sinfo (store_present attr (sinfo (number attr)) s)

-- `for (i = 1; i < NL80211_TESTMODE_STA_STATISTICS_NUM; i++)`
abbrev pub all_attrs : List StaAttr
all_attrs =
    a_version ∷ a_mac ∷ a_link_score ∷ a_flag ∷ a_per ∷ a_rssi ∷ a_phy_mode ∷ a_tx_rate
    ∷ a_total_cnt ∷ a_threshold_cnt ∷ a_avg_process_time ∷ a_fail_cnt ∷ a_timeout_cnt
    ∷ a_avg_air_time ∷ a_tc_empty_cnt ∷ a_tc_que_len ∷ a_tc_avg_que_len ∷ a_tc_cur_que_len
    ∷ a_reserved ∷ []

module _ (nl : Netlink) where
  pub with_table : Option Table → StaStatistics → StaStatistics
  unfolding store_all store_present store
  with_table none s = s
  with_table (some sinfo) s = store_all nl all_attrs sinfo s

  pub with_testdata : Option Attr → StaStatistics → StaStatistics
  unfolding with_table
  with_testdata none s = s
  with_testdata (some a) s = with_table (nl.parse_nested statistics_max a) s

  unfoldable pub testmode_sta_statistics_handler : Bytes → State StaStatistics ℤ
  unfolding with_testdata
  testmode_sta_statistics_handler msg s = (nl.nl_skip, with_testdata (nl.testdata msg) s)
