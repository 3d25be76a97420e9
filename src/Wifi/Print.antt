-- ===== src/Wifi/Print.antt =====
-- `print_sta_statistics` of mediatek_driver_cmd_nl80211.c.
-- `MACSTR` and `MAC2STR` are wpa_supplicant's macros: `mac_text` is what they print.
pub mod Report
use android_device_gionee_p.Common.{
  take, ℕ, zero, suc, ◌+◌, ◌-◌, ◌*◌, ◌/◌, ◌%◌, ◌^◌, List, [], ◌∷◌, ◌++◌, ltb, ◌==◌, if◌then◌else◌,
  get_or, length,
}
use android_device_gionee_p.Common.Int.{ℤ, pos, negsuc}
use android_device_gionee_p.Format.{Text, codes, newline, decimal, decimal_ℤ, hex_upper}
use android_device_gionee_p.Wifi.Netlink.{Bytes}
use android_device_gionee_p.Wifi.Statistics.{Rate, halves, indeterminate, StaStatistics}
use android_device_gionee_p.Wifi.Printer.{Printed, complete, cut, print, buffer}

-- "%d" reads a `u32` as an `int`.
abbrev pub as_int32 : ℕ → ℤ
as_int32 w = if ltb w (2 ^ 31) then pos w else negsuc (2 ^ 32 - w - 1)

-- The k-th `u32` of an array's bytes, least significant byte first.
abbrev pub word_at : ℕ → Bytes → ℕ
word_at k b =
    get_or b (4 * k) 0
    + 2 ^ 8 * get_or b (4 * k + 1) 0
    + 2 ^ 16 * get_or b (4 * k + 2) 0
    + 2 ^ 24 * get_or b (4 * k + 3) 0

-- "%.1f"
pub rate_text : Rate → Text
rate_text (halves n) = decimal (n / 2) ++ b'.' ∷ (if n % 2 == 0 then b'0' else b'5') ∷ []
rate_text (indeterminate t) = t

-- A line "name=%d\n".
pub int_entry : Text → ℤ → Text
int_entry name z = name ++ decimal_ℤ z ++ newline

-- A line "name=%d:%d:%d:%d\n".
pub four_entry : Text → Bytes → Text
four_entry name b =
    name
    ++ decimal_ℤ (as_int32 (word_at 0 b))
    ++ b':' ∷ decimal_ℤ (as_int32 (word_at 1 b))
    ++ b':' ∷ decimal_ℤ (as_int32 (word_at 2 b))
    ++ b':' ∷ decimal_ℤ (as_int32 (word_at 3 b))
    ++ newline

-- `for (i = …; …; i++)` over reserved bytes, with a blank behind every fourth.
pub reserved_entries : ℕ → ℕ → Bytes → List Text
reserved_entries zero i reserved = []
reserved_entries (suc left) i reserved =
    let rest = reserved_entries left (suc i) reserved in
    hex_upper 2 (get_or reserved i 0) ∷ (if (i + 1) % 4 == 0 then codes " " ∷ rest else rest)

-- The result of every early return is 0, and at the end it is `pos - buf`.
abbrev pub statistics_result : Printed → ℕ
statistics_result (complete out) = length out
statistics_result (cut out t) = 0

abbrev pub reached_end : Printed → ℕ
reached_end (complete out) = 1
reached_end (cut out t) = 0

module _ (mac_text : Bytes → Text) where
  -- The texts that the function prints, in its order.
  unfoldable pub statistics_entries : StaStatistics → List Text
  unfolding int_entry four_entry rate_text reserved_entries
  statistics_entries s =
      (codes "sta_addr=" ++ mac_text s.addr ++ newline)
      ∷ int_entry (codes "link_score=") (pos s.link_score)
      ∷ int_entry (codes "per=") (pos s.per)
      ∷ int_entry (codes "rssi=") s.rssi
      ∷ (codes "phy=0x" ++ hex_upper 8 s.phy_mode ++ newline)
      ∷ (codes "rate=" ++ rate_text s.tx_rate ++ newline)
      ∷ int_entry (codes "total_cnt=") (as_int32 s.tx_total_cnt)
      ∷ int_entry (codes "threshold_cnt=") (as_int32 s.tx_exc_threshold_cnt)
      ∷ int_entry (codes "fail_cnt=") (as_int32 s.tx_fail_cnt)
      ∷ int_entry (codes "timeout_cnt=") (as_int32 s.tx_timeout_cnt)
      ∷ int_entry (codes "apt=") (as_int32 s.tx_avg_process_time)
      ∷ int_entry (codes "aat=") (as_int32 s.tx_avg_air_time)
      ∷ four_entry (codes "TC_buf_full_cnt=") s.tc_buf_full_cnt
      ∷ four_entry (codes "TC_sta_que_len=") s.tc_que_len
      ∷ four_entry (codes "TC_avg_que_len=") s.tc_avg_que_len
      ∷ four_entry (codes "TC_cur_que_len=") s.tc_cur_que_len
      ∷ (codes "flag=0x" ++ hex_upper 8 s.flag ++ newline)
      ∷ codes "reserved0="
      ∷ (reserved_entries 16 0 s.reserved
          ++ newline
            ∷ codes "reserved1="
            ∷ (reserved_entries 16 16 s.reserved ++ newline ∷ (codes "====" ++ newline) ∷ []))

  -- How often the report reads `reserved[32]`, which is past the end: `i` is 32 when the "\n" behind
  -- the second loop is printed, with an argument that its format does not use. That is the last
  -- text but one.
  unfoldable pub reads_past_reserved : StaStatistics → ℕ → ℕ
  unfolding print
  reads_past_reserved s buflen =
      let entries = statistics_entries s in
      reached_end (print buflen (take (length entries - 2) entries) [])

  -- The result, with what the buffer holds.
  unfoldable pub print_sta_statistics : StaStatistics → ℕ → ℕ × Text
  unfolding print
  print_sta_statistics s buflen =
      let printed = print buflen (statistics_entries s) [] in
      (statistics_result printed, buffer buflen printed)
