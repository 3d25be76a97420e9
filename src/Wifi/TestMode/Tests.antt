-- ===== src/Wifi/TestMode/Tests.antt =====
-- Test-mode messages of mediatek_driver_cmd_nl80211.c at concrete inputs.
use android_device_gionee_p.Common.{◌≡◌, refl, [], ◌∷◌, true, arith}
use android_device_gionee_p.Common.Int.{pos}
use android_device_gionee_p.Wifi.TestMode.{Config, set_beamplus, Radio, exchanged, testmode}
use android_device_gionee_p.Wifi.TestMode.Ready.{testmode_go_ready_lem}
use android_device_gionee_p.Wifi.Tests.{nl, blank, no_counts, rssi_message}

abbrev config : Config
config = record {
  poor_link_detect = true;
  hotspot_mgr = true;
  wapi = true;
  p2p_sigma = true;
  beam = true;
  go_ready_attrs = record {
    go_ready_num = 3;
    go_ready_max = 2;
    go_ready_state = 2;
    num_fits = omega arith;
  };
}

-- The state 1 in an attribute of the number 2, and a message without it.
abbrev beam_radio : Radio
beam_radio = record {
  answer = λ n. exchanged (pos 0) ((2 ∷ 1 ∷ []) ∷ rssi_message ∷ []);
  attempts = 0;
  sent = [];
  leaked = 0;
  sta_statistics = blank;
  sta_link_detect = no_counts;
  go_ready = 0;
}

testmode_go_ready_lem_example :
    testmode nl config (set_beamplus (record { index = 0x01000012; buflen = 12 })) beam_radio ≡ (
      pos 0,
      record beam_radio {
        attempts = 1;
        sent = set_beamplus (record { index = 0x01000012; buflen = 12 }) ∷ [];
        go_ready = 1;
      },
    )
testmode_go_ready_lem_example =
    testmode_go_ready_lem nl config (record { index = 0x01000012; buflen = 12 }) beam_radio (pos 0)
      ((2 ∷ 1 ∷ []) ∷ rssi_message ∷ []) refl refl (omega arith) (omega arith) refl
