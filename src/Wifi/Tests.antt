-- ===== src/Wifi/Tests.antt =====
-- Runs of the statistics of mediatek_driver_cmd_nl80211.c on small messages.
use android_device_gionee_p.Common.{
  ℕ, zero, suc, ◌%◌, ◌^◌, ◌<◌, ◌≡◌, refl, [], ◌∷◌, ◌++◌, some, none, arith, ltb, if◌then◌else◌,
  ◌==◌, get_or, length, take, drop,
}
use android_device_gionee_p.Common.Int.{pos, negsuc}
use android_device_gionee_p.Format.{Text, codes, stored, decimal}
use android_device_gionee_p.Wifi.Netlink.{Bytes, Attr, Table, Netlink}
use android_device_gionee_p.Wifi.Statistics.{
  StaStatistics, indeterminate, a_rssi, number, testmode_sta_statistics_handler,
}
use android_device_gionee_p.Wifi.Statistics.Decode.{field, class_of, present, statistics_decoded}
use android_device_gionee_p.Wifi.Print.{statistics_entries, print_sta_statistics}
use android_device_gionee_p.Wifi.Print.Report.{report, print_sta_statistics_lem}
use android_device_gionee_p.Wifi.LinkDetect.Report
use android_device_gionee_p.Wifi.LinkDetect.{
  LinkDetect, testmode_sta_link_detect_handler, link_entries, print_link_detect,
}
use android_device_gionee_p.Wifi.LinkDetect.Report.{
  decoded, link_detect_decoded, print_link_detect_lem, magnitude_lem, as_int64,
}
use android_device_gionee_p.Wifi.Printer.{print}
use android_device_gionee_p.Wifi.Printer.Laws.{Reaches}

-- A libnl whose message is its test data, with one attribute, of the number and the content that
-- the first two bytes say.
abbrev first_byte : Bytes → ℕ
first_byte [] = 0
first_byte (b ∷ rest) = b % 256

abbrev pub nl : Netlink
nl = record {
  testdata = λ msg. some msg;
  parse_nested = λ max a. some (λ i. if i == get_or a 0 0 then some (drop 1 a) else none);
  nla_get_u8 = first_byte;
  nla_get_u16 = first_byte;
  nla_get_u32 = first_byte;
  nla_get_u64 = first_byte;
  nla_memcpy = λ dest a. take (length dest) (a ++ drop (length a) dest);
  nl_skip = pos 1;
}

abbrev zeros : ℕ → Bytes
zeros zero = []
zeros (suc n) = 0 ∷ zeros n

abbrev pub blank : StaStatistics
blank = record {
  version = 0;
  addr = 2 ∷ 0 ∷ 0 ∷ 0 ∷ 0 ∷ 1 ∷ [];
  flag = 0;
  link_score = 0;
  per = 0;
  rssi = pos 0;
  phy_mode = 0;
  tx_rate = indeterminate (codes "0.0");
  tx_total_cnt = 0;
  tx_exc_threshold_cnt = 0;
  tx_avg_process_time = 0;
  tx_fail_cnt = 0;
  tx_timeout_cnt = 0;
  tx_avg_air_time = 0;
  tc_buf_full_cnt = zeros 16;
  tc_que_len = zeros 16;
  tc_avg_que_len = zeros 16;
  tc_cur_que_len = zeros 16;
  reserved = zeros 32;
}

-- An rssi of 100 half dBm steps above -220 / 2.
abbrev pub rssi_message : Bytes
rssi_message = 6 ∷ 100 ∷ []

abbrev rssi_table : Table
rssi_table i = if i == 6 then some (100 ∷ []) else none

statistics_decoded_example :
    field a_rssi (testmode_sta_statistics_handler nl rssi_message blank).1
    ≡ present nl (class_of a_rssi) (rssi_table (number a_rssi)) (field a_rssi blank)
statistics_decoded_example =
    statistics_decoded nl a_rssi rssi_message rssi_message rssi_table blank refl refl

rssi_stored : (testmode_sta_statistics_handler nl rssi_message blank).1.rssi ≡ negsuc 59
unfolding testmode_sta_statistics_handler
rssi_stored = refl

abbrev pub mac : Bytes → Text
mac addr = codes "02:00:00:00:00:01"

print_sta_statistics_lem_example : print_sta_statistics mac blank 16 ≡ (
  (if ltb (length (report mac blank)) 16 then length (report mac blank) else 0),
  stored 16 (report mac blank),
)
print_sta_statistics_lem_example = print_sta_statistics_lem mac blank 16 (omega arith)

-- Fifteen bytes and the NUL fit; the result says that the report was cut.
cut_report : print_sta_statistics mac blank 16 ≡ (0, codes "sta_addr=02:00:")
unfolding print_sta_statistics statistics_entries print
cut_report = refl

zeros-netlink : (a : Attr) → first_byte a < 2 ^ 8
zeros-netlink [] = omega arith
zeros-netlink (b ∷ rest) = omega arith

abbrev pub no_counts : LinkDetect
no_counts = record {
  tx_fail_cnt = 0;
  tx_retry_cnt = 1;
  tx_multi_retry_cnt = 2;
  ack_fail_cnt = 3;
  fcs_err_cnt = 4;
  tx_cnt = 5;
  tx_ok_cnt = 6;
  tx_os_cnt = 7;
}

link_detect_decoded_example :
    testmode_sta_link_detect_handler nl rssi_message no_counts
    ≡ (pos 1, decoded nl rssi_table no_counts)
link_detect_decoded_example =
    link_detect_decoded nl (λ a. omega (arith, zeros-netlink a)) rssi_message rssi_message
      rssi_table no_counts refl refl

print_link_detect_lem_example :
    ((print_link_detect no_counts 32).1 ≡ stored 32 (Report.report no_counts))
    × ((k : ℕ) × Reaches 32 (print_link_detect no_counts 32).0 (link_entries no_counts) [] k)
print_link_detect_lem_example = print_link_detect_lem no_counts 32 (omega arith)

-- The result counts the lines that fit, and the buffer also holds a part of the next one.
cut_counts : print_link_detect no_counts 32 ≡ (29, codes "rFailedCount=0\nrRetryCount=1\nrM")
unfolding print_link_detect link_entries print decimal
cut_counts = refl
