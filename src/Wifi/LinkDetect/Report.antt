-- ===== src/Wifi/LinkDetect/Report.antt =====
-- The link statistics that `testmode_sta_link_detect_handler` leaves, and the report of them.
use android_device_gionee_p.Common.{
  ℕ, ◌+◌, ◌-◌, ◌^◌, ◌<◌, ◌≤◌, ◌≡◌, refl, ap, [], Option, none, some, ltb, if◌then◌else◌, arith,
}
use android_device_gionee_p.Common.Int.{ℤ, pos, negsuc, pos_part, neg_part}
use android_device_gionee_p.Format.{Text, stored}
use android_device_gionee_p.Wifi.Netlink.{Bytes, Attr, Table, Netlink}
use android_device_gionee_p.Wifi.Printer.{Printed, complete, cut, print}
use android_device_gionee_p.Wifi.Printer.Laws.{
  joined, buffer-print, progress, Reaches, progress-print,
}
use android_device_gionee_p.Wifi.LinkDetect.{
  LinkDetect, LinkAttr, l_tx_fail, l_tx_retry, l_tx_multi_retry, l_ack_fail, l_fcs_err, l_tx,
  l_tx_ok, l_tx_os, link_detect_max, magnitude, store, store_present, store_all, with_table,
  with_testdata, testmode_sta_link_detect_handler, link_entries, link_result, print_link_detect,
}

-- The integer that the bits of a `u64` stand for as an `s64`.
abbrev pub as_int64 : ℕ → ℤ
as_int64 w = if ltb w (2 ^ 63) then pos w else negsuc (2 ^ 64 - w - 1)

-- The stored count is the absolute value of the signed counter, and fits an `s64` but for the
-- least one.
pub magnitude_lem :
    (w : ℕ)
    → w < 2 ^ 64
    → (magnitude w ≡ pos_part (as_int64 w) + neg_part (as_int64 w)) × (magnitude w ≤ 2 ^ 63)
unfolding magnitude
magnitude_lem w h = ground arith

-- The absolute value of a signed counter's bits.
abbrev pub unsigned : ℕ → ℕ
unsigned w = pos_part (as_int64 w) + neg_part (as_int64 w)

module _ (nl : Netlink) where
  -- What a field becomes.
  abbrev pub taken : (Attr → ℕ) → Option Attr → ℕ → ℕ
  taken read none old = old
  taken read (some a) old = read a

  abbrev pub decoded : Table → LinkDetect → LinkDetect
  decoded sinfo s = record {
    tx_fail_cnt = taken nl.nla_get_u64 (sinfo 1) s.tx_fail_cnt;
    tx_retry_cnt = taken nl.nla_get_u64 (sinfo 2) s.tx_retry_cnt;
    tx_multi_retry_cnt = taken nl.nla_get_u64 (sinfo 3) s.tx_multi_retry_cnt;
    ack_fail_cnt = taken (λ a. unsigned (nl.nla_get_u64 a)) (sinfo 4) s.ack_fail_cnt;
    fcs_err_cnt = taken nl.nla_get_u64 (sinfo 5) s.fcs_err_cnt;
    tx_cnt = taken nl.nla_get_u64 (sinfo 6) s.tx_cnt;
    tx_ok_cnt = taken nl.nla_get_u64 (sinfo 7) s.tx_ok_cnt;
    tx_os_cnt = taken nl.nla_get_u64 (sinfo 8) s.tx_os_cnt;
  }

  abbrev stepped : LinkAttr → Option Attr → LinkDetect → LinkDetect
  stepped l_tx_fail a s = record s { tx_fail_cnt = taken nl.nla_get_u64 a s.tx_fail_cnt }
  stepped l_tx_retry a s = record s { tx_retry_cnt = taken nl.nla_get_u64 a s.tx_retry_cnt }
  stepped l_tx_multi_retry a s = record s {
    tx_multi_retry_cnt = taken nl.nla_get_u64 a s.tx_multi_retry_cnt;
  }
  stepped l_ack_fail a s = record s {
    ack_fail_cnt = taken (λ b. unsigned (nl.nla_get_u64 b)) a s.ack_fail_cnt;
  }
  stepped l_fcs_err a s = record s { fcs_err_cnt = taken nl.nla_get_u64 a s.fcs_err_cnt }
  stepped l_tx a s = record s { tx_cnt = taken nl.nla_get_u64 a s.tx_cnt }
  stepped l_tx_ok a s = record s { tx_ok_cnt = taken nl.nla_get_u64 a s.tx_ok_cnt }
  stepped l_tx_os a s = record s { tx_os_cnt = taken nl.nla_get_u64 a s.tx_os_cnt }

  module _ (fits : (a : Attr) → nl.nla_get_u64 a < 2 ^ 64) where
    one_round :
        (attr : LinkAttr) (a : Option Attr) (s : LinkDetect)
        → store_present nl attr a s ≡ stepped attr a s
    unfolding store_present store
    one_round l_ack_fail none s = refl
    one_round l_ack_fail (some a) s =
        ap (λ (n : ℕ). record s { ack_fail_cnt = n }) (magnitude_lem (nl.nla_get_u64 a) (fits a)).0
    one_round l_tx_fail none s = refl
    one_round _ none s = refl
    one_round l_tx_fail (some a) s = refl
    one_round _ (some a) s = refl

    -- Of a message whose test data parses to a table, where libnl reads a `u64` that fits 64 bits:
    -- every count takes what its own attribute carries, the failed acknowledgements the absolute
    -- value of the signed 64-bit number that their bits are, and a count with no attribute keeps
    -- what it held.
    pub link_detect_decoded :
        (msg : Bytes) (testdata : Attr) (sinfo : Table) (s : LinkDetect)
        → nl.testdata msg ≡ some testdata
        → nl.parse_nested link_detect_max testdata ≡ some sinfo
        → testmode_sta_link_detect_handler nl msg s ≡ (nl.nl_skip, decoded sinfo s)
    unfolding testmode_sta_link_detect_handler store_all
    link_detect_decoded msg testdata sinfo s found parsed =
        rw (found, with_testdata) (rw (parsed, with_table) (simp one_round))

link_result-progress : (printed : Printed) → link_result printed ≡ progress printed
link_result-progress (complete out) = refl
link_result-progress (cut out t) = refl

module _ (s : LinkDetect) where
  abbrev pub report : Text
  report = joined (link_entries s)

  -- In a buffer of at least one byte, the bytes in front of the NUL are those that one `snprintf`
  -- of the whole report would store. The result counts the first lines that fit together: it is
  -- below the size of the buffer, and either they are all the lines or one more would not fit.
  pub print_link_detect_lem :
      (buflen : ℕ)
      → 0 < buflen
      → ((print_link_detect s buflen).1 ≡ stored buflen report)
        × ((k : ℕ) × Reaches buflen (print_link_detect s buflen).0 (link_entries s) [] k)
  unfolding print_link_detect
  print_link_detect_lem buflen room = (
    buffer-print buflen (link_entries s) [] room,
    rw (link_result-progress (print buflen (link_entries s) []))
        (progress-print buflen (link_entries s) [] room),
  )
