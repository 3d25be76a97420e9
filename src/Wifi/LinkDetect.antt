-- ===== src/Wifi/LinkDetect.antt =====
-- The link statistics, under CONFIG_MTK_POOR_LINK_DETECT: `testmode_sta_link_detect_handler` and
-- the report of `wpa_driver_get_sta_link_detect` in mediatek_driver_cmd_nl80211.c.
pub mod Report
use android_device_gionee_p.Common.{
  ℕ, suc, ◌+◌, ◌-◌, ◌^◌, List, [], ◌∷◌, ◌++◌, Option, none, some, ltb, if◌then◌else◌, length,
}
use android_device_gionee_p.Common.Int.{ℤ, pos, negsuc}
use android_device_gionee_p.Common.State.{State}
use android_device_gionee_p.Format.{Text, codes, newline, decimal}
use android_device_gionee_p.Wifi.Netlink.{Bytes, Attr, Table, Netlink}
use android_device_gionee_p.Wifi.Printer.{Printed, complete, cut, print, buffer}

-- `struct wpa_driver_sta_link_detect_s`; every field is a `u64`.
pub record LinkDetect : Type 0 where
  pub tx_fail_cnt : ℕ
  pub tx_retry_cnt : ℕ
  pub tx_multi_retry_cnt : ℕ
  pub ack_fail_cnt : ℕ
  pub fcs_err_cnt : ℕ
  pub tx_cnt : ℕ
  pub tx_ok_cnt : ℕ
  pub tx_os_cnt : ℕ

-- `enum nl80211_testmode_link_detect_attr`, without its first and last constants.
pub data LinkAttr : Type 0 where
  l_tx_fail l_tx_retry l_tx_multi_retry l_ack_fail l_fcs_err l_tx l_tx_ok l_tx_os : LinkAttr

abbrev pub number : LinkAttr → ℕ
number l_tx_fail = 1
number l_tx_retry = 2
number l_tx_multi_retry = 3
number l_ack_fail = 4
number l_fcs_err = 5
number l_tx = 6
number l_tx_ok = 7
number l_tx_os = 8

-- `NL80211_TESTMODE_LINK_DETECT_MAX`
abbrev pub link_detect_max : ℕ
link_detect_max = 8

-- `ack_cnt` is an `s64` that was read from a `u64`; `-ack_cnt` goes back into a `u64`.
pub magnitude : ℕ → ℕ
magnitude w = if ltb w (2 ^ 63) then w else 2 ^ 64 - w

module _ (nl : Netlink) where
  pub store : LinkAttr → Attr → LinkDetect → LinkDetect
  unfolding magnitude
  store l_tx_fail a s = record s { tx_fail_cnt = nl.nla_get_u64 a }
  store l_tx_retry a s = record s { tx_retry_cnt = nl.nla_get_u64 a }
  store l_tx_multi_retry a s = record s { tx_multi_retry_cnt = nl.nla_get_u64 a }
  store l_ack_fail a s = record s { ack_fail_cnt = magnitude (nl.nla_get_u64 a) }
  store l_fcs_err a s = record s { fcs_err_cnt = nl.nla_get_u64 a }
  store l_tx a s = record s { tx_cnt = nl.nla_get_u64 a }
  store l_tx_ok a s = record s { tx_ok_cnt = nl.nla_get_u64 a }
  store l_tx_os a s = record s { tx_os_cnt = nl.nla_get_u64 a }

  pub store_present : LinkAttr → Option Attr → LinkDetect → LinkDetect
  store_present attr none s = s
  store_present attr (some a) s = store attr a s

  pub store_all : List LinkAttr → Table → LinkDetect → LinkDetect
  store_all [] sinfo s = s
  store_all (attr ∷ attrs) sinfo s =
      store_all attrs sinfo (store_present attr (sinfo (number attr)) s)

-- `for (i = 1; i < NL80211_TESTMODE_LINK_DETECT_NUM; i++)`
abbrev pub all_attrs : List LinkAttr
all_attrs =
    l_tx_fail ∷ l_tx_retry ∷ l_tx_multi_retry ∷ l_ack_fail ∷ l_fcs_err ∷ l_tx ∷ l_tx_ok ∷ l_tx_os
    ∷ []

module _ (nl : Netlink) where
  pub with_table : Option Table → LinkDetect → LinkDetect
  unfolding store_all store_present store
  with_table none s = s
  with_table (some sinfo) s = store_all nl all_attrs sinfo s

  pub with_testdata : Option Attr → LinkDetect → LinkDetect
  unfolding with_table
  with_testdata none s = s
  with_testdata (some a) s = with_table (nl.parse_nested link_detect_max a) s

  unfoldable pub testmode_sta_link_detect_handler : Bytes → State LinkDetect ℤ
  unfolding with_testdata
  testmode_sta_link_detect_handler msg s = (nl.nl_skip, with_testdata (nl.testdata msg) s)

-- A line "name=%llu\n".
pub count_entry : Text → ℕ → Text
count_entry name n = name ++ decimal n ++ newline

unfoldable pub link_entries : LinkDetect → List Text
unfolding count_entry
link_entries s =
    count_entry (codes "rFailedCount=") s.tx_fail_cnt
    ∷ count_entry (codes "rRetryCount=") s.tx_retry_cnt
    ∷ count_entry (codes "rMultipleRetryCount=") s.tx_multi_retry_cnt
    ∷ count_entry (codes "rACKFailureCount=") s.ack_fail_cnt
    ∷ count_entry (codes "rFCSErrorCount=") s.fcs_err_cnt
    ∷ count_entry (codes "tx_total=") s.tx_cnt
    ∷ count_entry (codes "tx_ok=") s.tx_ok_cnt
    ∷ count_entry (codes "tx_os=") s.tx_os_cnt
    ∷ []

-- Every return, early or not, is of `pos - buf`.
abbrev pub link_result : Printed → ℕ
link_result (complete out) = length out
link_result (cut out t) = length out

-- The report of `wpa_driver_get_sta_link_detect`, once the statistics are there.
unfoldable pub print_link_detect : LinkDetect → ℕ → ℕ × Text
unfolding link_entries
print_link_detect s buflen =
    let printed = print buflen (link_entries s) [] in (link_result printed, buffer buflen printed)
