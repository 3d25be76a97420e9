-- ===== src/Wifi/Statistics/Decode.antt =====
-- What `testmode_sta_statistics_handler` leaves in each field.
use android_device_gionee_p.Common.{
  ℕ, suc, ◌+◌, ◌/◌, ◌≡◌, inl, inr, refl, ◌∙◌, ap, List, [], ◌∷◌, Option, none, some, ◌==◌,
  if◌then◌else◌, arith, Bool-cases,
}
use android_device_gionee_p.Common.Int.{sub_ℕ, pos, negsuc, neg_ℕ, ℤ}
use android_device_gionee_p.Wifi.Netlink.{Bytes, Attr, Table, Netlink}
use android_device_gionee_p.Wifi.Statistics.{
  Rate, halves, StaStatistics, StaAttr, a_version, a_mac, a_link_score, a_flag, a_per, a_rssi,
  a_phy_mode, a_tx_rate, a_total_cnt, a_threshold_cnt, a_avg_process_time, a_fail_cnt,
  a_timeout_cnt, a_avg_air_time, a_tc_empty_cnt, a_tc_que_len, a_tc_avg_que_len, a_tc_cur_que_len,
  a_reserved, number, rssi_of, store, store_present, store_all, all_attrs, with_table,
  with_testdata, testmode_sta_statistics_handler, statistics_max,
}

-- A field's content, whatever its type.
pub data Content : Type 0 where
  word : ℕ → Content
  int : ℤ → Content
  rate : Rate → Content
  bytes : Bytes → Content

-- The field that an attribute is for.
abbrev pub field : StaAttr → StaStatistics → Content
field a_version s = word s.version
field a_mac s = bytes s.addr
field a_link_score s = word s.link_score
field a_flag s = word s.flag
field a_per s = word s.per
field a_rssi s = int s.rssi
field a_phy_mode s = word s.phy_mode
field a_tx_rate s = rate s.tx_rate
field a_total_cnt s = word s.tx_total_cnt
field a_threshold_cnt s = word s.tx_exc_threshold_cnt
field a_avg_process_time s = word s.tx_avg_process_time
field a_fail_cnt s = word s.tx_fail_cnt
field a_timeout_cnt s = word s.tx_timeout_cnt
field a_avg_air_time s = word s.tx_avg_air_time
field a_tc_empty_cnt s = bytes s.tc_buf_full_cnt
field a_tc_que_len s = bytes s.tc_que_len
field a_tc_avg_que_len s = bytes s.tc_avg_que_len
field a_tc_cur_que_len s = bytes s.tc_cur_que_len
field a_reserved s = bytes s.reserved

-- The classes of attributes, and how each class is read.
pub data Class : Type 0 where
  u8_class u32_class rssi_class rate_class array_class : Class

abbrev pub class_of : StaAttr → Class
class_of a_version = u8_class
class_of a_link_score = u8_class
class_of a_per = u8_class
class_of a_rssi = rssi_class
class_of a_tx_rate = rate_class
class_of a_mac = array_class
class_of a_tc_empty_cnt = array_class
class_of a_tc_que_len = array_class
class_of a_tc_avg_que_len = array_class
class_of a_tc_cur_que_len = array_class
class_of a_reserved = array_class
class_of _ = u32_class

-- The old bytes of an array stay where the attribute is shorter.
abbrev pub old_bytes : Content → Bytes
old_bytes (bytes b) = b
old_bytes _ = []

-- Half of an integer, rounded towards 0.
abbrev pub half : ℤ → ℤ
half (pos n) = pos (n / 2)
half (negsuc n) = neg_ℕ ((n + 1) / 2)

rssi_of-half : (n : ℕ) → rssi_of n ≡ half (sub_ℕ n 220)
rssi_of-half n = ground arith

module _ (nl : Netlink) where
  abbrev pub read : Class → Attr → Content → Content
  read u8_class a old = word (nl.nla_get_u8 a)
  read u32_class a old = word (nl.nla_get_u32 a)
  read rssi_class a old = int (half (sub_ℕ (nl.nla_get_u8 a) 220))
  read rate_class a old = rate (halves (nl.nla_get_u16 a))
  read array_class a old = bytes (nl.nla_memcpy (old_bytes old) a)

  field-store :
      (attr b : StaAttr) (a : Attr) (s : StaStatistics)
      → field b (store nl attr a s)
        ≡ (if number attr == number b then read (class_of b) a (field b s) else field b s)
  unfolding store
  field-store a_version a_version a s = refl
  field-store a_version _ a s = refl
  field-store a_mac a_mac a s = refl
  field-store a_mac _ a s = refl
  field-store a_link_score a_link_score a s = refl
  field-store a_link_score _ a s = refl
  field-store a_flag a_flag a s = refl
  field-store a_flag _ a s = refl
  field-store a_per a_per a s = refl
  field-store a_per _ a s = refl
  field-store a_rssi a_rssi a s = ap int (rssi_of-half (nl.nla_get_u8 a))
  field-store a_rssi _ a s = refl
  field-store a_phy_mode a_phy_mode a s = refl
  field-store a_phy_mode _ a s = refl
  field-store a_tx_rate a_tx_rate a s = refl
  field-store a_tx_rate _ a s = refl
  field-store a_total_cnt a_total_cnt a s = refl
  field-store a_total_cnt _ a s = refl
  field-store a_threshold_cnt a_threshold_cnt a s = refl
  field-store a_threshold_cnt _ a s = refl
  field-store a_avg_process_time a_avg_process_time a s = refl
  field-store a_avg_process_time _ a s = refl
  field-store a_fail_cnt a_fail_cnt a s = refl
  field-store a_fail_cnt _ a s = refl
  field-store a_timeout_cnt a_timeout_cnt a s = refl
  field-store a_timeout_cnt _ a s = refl
  field-store a_avg_air_time a_avg_air_time a s = refl
  field-store a_avg_air_time _ a s = refl
  field-store a_tc_empty_cnt a_tc_empty_cnt a s = refl
  field-store a_tc_empty_cnt _ a s = refl
  field-store a_tc_que_len a_tc_que_len a s = refl
  field-store a_tc_que_len _ a s = refl
  field-store a_tc_avg_que_len a_tc_avg_que_len a s = refl
  field-store a_tc_avg_que_len _ a s = refl
  field-store a_tc_cur_que_len a_tc_cur_que_len a s = refl
  field-store a_tc_cur_que_len _ a s = refl
  field-store a_reserved a_reserved a s = refl
  field-store a_reserved _ a s = refl

  -- One round of the loop, as an attribute of the message is or is not there.
  abbrev pub present : Class → Option Attr → Content → Content
  present c none old = old
  present c (some a) old = read c a old

  field-store_present :
      (attr b : StaAttr) (a : Option Attr) (s : StaStatistics)
      → field b (store_present nl attr a s)
        ≡ (if number attr == number b then present (class_of b) a (field b s) else field b s)
  unfolding store_present
  field-store_present attr b none s = ground arith
  field-store_present attr b (some a) s = field-store attr b a s

  -- How often a list visits an attribute.
  abbrev visits : StaAttr → List StaAttr → ℕ
  visits b [] = 0
  visits b (attr ∷ attrs) = if number attr == number b then suc (visits b attrs) else visits b attrs

  field-unvisited :
      (attrs : List StaAttr) (b : StaAttr) (sinfo : Table) (s : StaStatistics)
      → visits b attrs ≡ 0
      → field b (store_all nl attrs sinfo s) ≡ field b s
  unfolding store_all
  field-unvisited [] b sinfo s h = refl
  field-unvisited (attr ∷ attrs) b sinfo s h = elim (Bool-cases (number attr == number b)) [
    | inl same ↦ absurd (ground arith)
    | inr other ↦
        field-unvisited attrs b sinfo (store_present nl attr (sinfo (number attr)) s) (ground arith)
        ∙ field-store_present attr b (sinfo (number attr)) s
        ∙ rw other
  ]

  field-visited :
      (attrs : List StaAttr) (b : StaAttr) (sinfo : Table) (s : StaStatistics)
      → visits b attrs ≡ 1
      → field b (store_all nl attrs sinfo s) ≡ present (class_of b) (sinfo (number b)) (field b s)
  unfolding store_all
  field-visited [] b sinfo s h = absurd (omega arith)
  field-visited (attr ∷ attrs) b sinfo s h = elim (Bool-cases (number attr == number b)) [
    | inl same ↦
        field-unvisited attrs b sinfo (store_present nl attr (sinfo (number attr)) s) (ground arith)
        ∙ field-store_present attr b (sinfo (number attr)) s
        ∙ rw same (let e : number attr ≡ number b = ground arith in rw e)
    | inr other ↦
        field-visited attrs b sinfo (store_present nl attr (sinfo (number attr)) s) (ground arith)
        ∙ ap (present (class_of b) (sinfo (number b)))
            (field-store_present attr b (sinfo (number attr)) s ∙ rw other)
  ]

  visits_once : (b : StaAttr) → visits b all_attrs ≡ 1
  visits_once a_version = refl
  visits_once _ = refl

  -- Of a message whose test data parses to a table, every field takes what its own attribute
  -- carries, read by the width of the field, and a field with no attribute keeps what it held. The
  -- rssi is half of the byte's difference from 220, rounded towards 0.
  pub statistics_decoded :
      (b : StaAttr) (msg : Bytes) (testdata : Attr) (sinfo : Table) (s : StaStatistics)
      → nl.testdata msg ≡ some testdata
      → nl.parse_nested statistics_max testdata ≡ some sinfo
      → field b (testmode_sta_statistics_handler nl msg s).1
        ≡ present (class_of b) (sinfo (number b)) (field b s)
  unfolding testmode_sta_statistics_handler
  statistics_decoded b msg testdata sinfo s found parsed =
      rw (found, with_testdata)
        (rw (parsed, with_table) (field-visited all_attrs b sinfo s (visits_once b)))
