-- ===== src/Wifi/Driver/Tests.antt =====
-- Runs of the commands of mediatek_driver_cmd_nl80211.c on a small driver.
use android_device_gionee_p.Common.{
  none, ℕ, map, not, ◌+◌, ◌≡◌, refl, [], ◌∷◌, ◌++◌, true, false, some, arith, ◌==◌, leb, ltb,
  if◌then◌else◌, length,
}
use android_device_gionee_p.Common.Int.{pos, ltb_ℤ}
use android_device_gionee_p.Format.{codes, decimal, stored}
use android_device_gionee_p.Wifi.Netlink.{Bytes}
use android_device_gionee_p.Wifi.Strings.{
  strtol, atoi, skip_space, scan, scan_any, starts_with_nocase, starts_with, behind_blank,
}
use android_device_gionee_p.Wifi.Print.Report.{report}
use android_device_gionee_p.Wifi.TestMode.{Radio, exchanged, no_room, sw_cmd, p2p_sigma_params}
use android_device_gionee_p.Wifi.TestMode.Sent.{received, received_links}
use android_device_gionee_p.Wifi.Parse.{command_of}
use android_device_gionee_p.Wifi.Driver.{Platform, Driver, returned, undefined, Bss, private_ioctl}
use android_device_gionee_p.Wifi.Driver.Dispatch.{driver_cmd}
use android_device_gionee_p.Wifi.Driver.Filters.{IsUp, filter_add, name_of, tuning_lem}
use android_device_gionee_p.Wifi.Driver.Peers.{Wish, set_opps, text_of, wish_sent}
use android_device_gionee_p.Wifi.Driver.Buffer.{IsWithin}
use android_device_gionee_p.Wifi.Driver.Replies.{IsFitting, driver_cmd-IsWithin}
use android_device_gionee_p.Wifi.Driver.Statistics.{get_sta_statistics_lem}
use android_device_gionee_p.Wifi.Driver.Mcc.{on_channels, mcc_lem}
use android_device_gionee_p.Wifi.Driver.Links.{get_sta_link_detect_lem}
use android_device_gionee_p.Wifi.LinkDetect.{print_link_detect, link_entries}
use android_device_gionee_p.Wifi.LinkDetect.Report as LinkReport
use android_device_gionee_p.Wifi.Printer.Laws.{Reaches}
use android_device_gionee_p.Wifi.Driver.Country.{country_lem}
use android_device_gionee_p.Wifi.Tests.{nl, blank, mac, no_counts, rssi_message}

abbrev pub address : Bytes
address = 2 ∷ 0 ∷ 0 ∷ 0 ∷ 0 ∷ 1 ∷ []

abbrev pub os : Platform
os = record {
  nl = nl;
  config = record {
    poor_link_detect = true;
    hotspot_mgr = true;
    wapi = true;
    p2p_sigma = true;
    beam = true;
    go_ready_attrs = record {
      go_ready_num = 3;
      go_ready_max = 2;
      go_ready_state = 2;
      num_fits = omega arith;
    };
  };
  sizes = record {
    sw_cmd_size = 28;
    hotspot_size = 16;
    statistics_size = 20;
    link_detect_size = 12;
    sigma_size = 16;
    wapi_size = 100;
    wapi_key_room = 32;
    wapi_seq_room = 16;
    iw_encode_seq_max_size = 8;
    key_index_bits = 8;
    key_len_bits = 8;
    ext_key_len_bits = 16;
  };
  wapi_key = record {
    addr = none;
    key_idx = pos 0;
    set_tx = true;
    seq = none;
    seq_len = 0;
    key = some address;
    key_len = 6;
  };
  wapi_msg_len = pos 8;
  hwaddr_aton = λ t. some address;
  mac_text = mac;
  answer = λ n. pos n;
  stack_statistics = λ n. blank;
  stack_link_detect = λ n. no_counts;
}

abbrev radio : Radio
radio = record {
  answer = λ n. if n == 0 then exchanged (pos 0) (rssi_message ∷ []) else no_room;
  attempts = 0;
  sent = [];
  leaked = 0;
  sta_statistics = blank;
  sta_link_detect = no_counts;
  go_ready = 0;
}

abbrev pub idle : Driver
idle = record {
  radio = radio;
  calls = 0;
  effects = [];
  open_sockets = 0;
  ifaces = record { num_multichan_concurrent = 0; p2p_concurrent = false } ∷ [];
  concurrent_operations = some 0;
  buf = [];
  overreads = 0;
}

abbrev full : Driver
full = record idle { radio = record radio { attempts = 1 } }

abbrev pub wlan0 : Bss
wlan0 = record {
  is_ap0 = false;
  has_drv = true;
  has_ctx = true;
  has_conf = true;
  has_drv_priv = true;
  associated = true;
  own_addr = address;
}

abbrev ap0 : Bss
ap0 = record wlan0 { is_ap0 = true; has_conf = false }

wlan0-IsUp : IsUp wlan0
wlan0-IsUp = record { drv = refl; ctx = refl; conf = refl }

tuning_lem_example :
    let (res, d') = driver_cmd os wlan0 (name_of filter_add ++ b' ' ∷ decimal 3) 64 idle in
    (res ≡ returned (pos 0))
    × (d'.radio.sent
        ≡ sw_cmd (record { index = 0x01000001; buflen = 28 }) 1 0x9F000000 (3 + 0x00900200) ∷ [])
tuning_lem_example =
    tuning_lem os wlan0 64 idle filter_add 3 (pos 0) (rssi_message ∷ []) wlan0-IsUp (omega arith)
      refl

driver_cmd-IsWithin_example : IsWithin 64 idle (driver_cmd os wlan0 (codes "MACADDR") 64 idle)
unfolding IsFitting command_of starts_with starts_with_nocase
driver_cmd-IsWithin_example = driver_cmd-IsWithin os wlan0 (codes "MACADDR") 64 idle (omega arith)

abbrev wish : Wish
wish = set_opps 10 (codes "02:00:00:00:00:01 \"net\"")

wish_sent_example :
    let (res, d') = driver_cmd os wlan0 (text_of wish) 64 idle in
    (res ≡ returned (pos 0))
    × (d'.radio.sent ≡ p2p_sigma_params (record { index = 0x01000001; buflen = 16 }) 107 10 ∷ [])
unfolding behind_blank
wish_sent_example =
    wish_sent os wlan0 64 idle wish address wlan0-IsUp refl refl
      (omega arith, refl, codes "\"net\"", refl)

mcc_lem_example :
    let (res, d') = driver_cmd os wlan0 (codes "mcc " ++ decimal 1) 64 idle in
    (res ≡ returned (pos 0))
    × (d'.ifaces ≡ map (on_channels (not (1 == 0))) idle.ifaces)
    × (d'.radio ≡ radio)
mcc_lem_example = mcc_lem os wlan0 64 idle 1 wlan0-IsUp refl refl refl (omega arith)

-- `strtol` reads the base off the text, and `atoi` does not.
read_hex : (strtol (codes " 0x1F") ≡ some (pos 31)) × (atoi (codes " -0x1F") ≡ pos 0)
unfolding strtol atoi scan scan_any skip_space
read_hex = (refl, refl)

get_sta_statistics_lem_example :
    let text = report mac (received nl (rssi_message ∷ []) blank) in
    let (res, d') = driver_cmd os wlan0 (codes "GET_STA_STATISTICS 02:00:00:00:00:01") 512 idle in
    (res ≡ returned (pos (if ltb (length text) 512 then length text else 0)))
    × (d'.buf ≡ stored 512 text)
get_sta_statistics_lem_example =
    get_sta_statistics_lem os wlan0 (codes "02:00:00:00:00:01") address 512 idle (pos 0)
      (rssi_message ∷ []) wlan0-IsUp refl refl refl refl (omega arith)

get_sta_link_detect_lem_example :
    let s = received_links nl (rssi_message ∷ []) no_counts in
    let n = (print_link_detect s 512).0 in
    let (res, d') = driver_cmd os wlan0 (codes "GET_STA_LINK_DETECT") 512 idle in
    (res ≡ returned (pos n))
    × (d'.buf ≡ stored 512 (LinkReport.report s))
    × ((k : ℕ) × Reaches 512 n (link_entries s) [] k)
get_sta_link_detect_lem_example =
    get_sta_link_detect_lem os wlan0 512 idle (pos 0) (rssi_message ∷ []) wlan0-IsUp refl refl refl
      refl (omega arith)

-- "ap0" never sets the pointer that "MACADDR" reads through.
ap0_reads : driver_cmd os ap0 (codes "MACADDR") 64 idle ≡ (undefined, idle)
unfolding command_of starts_with_nocase starts_with driver_cmd
ap0_reads = refl

country_lem_example :
    let (res, d') = driver_cmd os wlan0 (codes "COUNTRY CN") 64 idle in
    (res ≡ (
      if leb (length (codes "CN")) 2
      then returned (if ltb_ℤ (os.answer 1) (pos 0) then os.answer 1 else pos 0)
      else undefined))
    × (d'.effects
        ≡ (if leb (length (codes "CN")) 2 then private_ioctl (codes "COUNTRY CN") ∷ [] else []))
country_lem_example = country_lem os wlan0 64 idle (codes "CN") wlan0-IsUp refl
