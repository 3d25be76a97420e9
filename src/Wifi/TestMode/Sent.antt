-- ===== src/Wifi/TestMode/Sent.antt =====
-- What `wpa_driver_nl80211_testmode` of mediatek_driver_cmd_nl80211.c is given by its callers.
use android_device_gionee_p.Common.{length, ◌<◌, ◌≤◌, ◌≡◌, ◌^◌, refl, List, [], ◌∷◌}
use android_device_gionee_p.Wifi.Statistics.{StaStatistics, testmode_sta_statistics_handler}
use android_device_gionee_p.Wifi.LinkDetect.{LinkDetect, testmode_sta_link_detect_handler}
use android_device_gionee_p.Wifi.Netlink.{Bytes, Netlink}
use android_device_gionee_p.Wifi.TestMode.{
  Sizes, Params, sw_cmd, hotspot, get_sta_statistics, get_sta_link_detect, p2p_sigma_params,
  wapi_key, set_beamplus, Radio, Handler, statistics_handler, link_detect_handler, no_handler,
  go_ready_handler, handle, handle_all,
}

module _ (sizes : Sizes) where
  -- The header that each structure should have: its index with the version 1 in the top byte, and
  -- its size. The words have 32 bits, those of a key the bits of their
  -- fields, its bytes fit theirs, and the flags are 0 or 1.
  unfoldable pub Fits : Params → Type 0
  Fits (sw_cmd h set adr dat) =
      (h ≡ record { index = 0x01000001; buflen = sizes.sw_cmd_size })
      × (set ≤ 1)
      × (adr < 2 ^ 32)
      × (dat < 2 ^ 32)
  Fits (hotspot h blocked bssid) =
      (h ≡ record { index = 0x01000003; buflen = sizes.hotspot_size }) × (blocked ≤ 1)
  Fits (get_sta_statistics h addr) =
      h ≡ record { index = 0x01000010; buflen = sizes.statistics_size }
  Fits (get_sta_link_detect h) = h ≡ record { index = 0x01000020; buflen = sizes.link_detect_size }
  Fits (p2p_sigma_params h idx value) =
      (h ≡ record { index = 0x01000001; buflen = sizes.sigma_size })
      × (idx < 2 ^ 32)
      × (value < 2 ^ 32)
  Fits (wapi_key h params) =
      (h ≡ record { index = 0x01000002; buflen = sizes.wapi_size })
      × (params.key_index < 2 ^ sizes.key_index_bits)
      × (params.key_len < 2 ^ sizes.key_len_bits)
      × (params.ext_key_len < 2 ^ sizes.ext_key_len_bits)
      × (length params.ext_key ≤ sizes.wapi_key_room)
      × (length params.tx_seq ≤ sizes.wapi_seq_room)
  -- None of the functions here sends it.
  Fits (set_beamplus h) = ⊥

  abbrev pub AllFit : List Params → Type 0
  AllFit [] = Unit {0}
  AllFit (p ∷ ps) = Fits p × AllFit ps

module _ (nl : Netlink) where
  -- The statistics after some messages, each read by the handler.
  pub received : List Bytes → StaStatistics → StaStatistics
  received [] s = s
  received (msg ∷ msgs) s = received msgs (testmode_sta_statistics_handler nl msg s).1

  pub handle_all-received :
      (msgs : List Bytes) (r : Radio)
      → (handle_all nl statistics_handler msgs r).sta_statistics ≡ received msgs r.sta_statistics
  unfolding handle_all handle received
  handle_all-received [] r = refl
  handle_all-received (msg ∷ msgs) r = handle_all-received msgs (handle nl statistics_handler msg r)

  -- The link statistics after some messages.
  pub received_links : List Bytes → LinkDetect → LinkDetect
  received_links [] s = s
  received_links (msg ∷ msgs) s = received_links msgs (testmode_sta_link_detect_handler nl msg s).1

  pub handle_all-received_links :
      (msgs : List Bytes) (r : Radio)
      → (handle_all nl link_detect_handler msgs r).sta_link_detect
        ≡ received_links msgs r.sta_link_detect
  unfolding handle_all handle received_links
  handle_all-received_links [] r = refl
  handle_all-received_links (msg ∷ msgs) r =
      handle_all-received_links msgs (handle nl link_detect_handler msg r)

  pub handle_all-sent :
      (h : Handler) (msgs : List Bytes) (r : Radio) → (handle_all nl h msgs r).sent ≡ r.sent
  unfolding handle_all handle
  handle_all-sent h [] r = refl
  handle_all-sent statistics_handler (msg ∷ msgs) r =
      handle_all-sent statistics_handler msgs (handle nl statistics_handler msg r)
  handle_all-sent link_detect_handler (msg ∷ msgs) r =
      handle_all-sent link_detect_handler msgs (handle nl link_detect_handler msg r)
  handle_all-sent (go_ready_handler attrs) (msg ∷ msgs) r =
      handle_all-sent (go_ready_handler attrs) msgs (handle nl (go_ready_handler attrs) msg r)
  handle_all-sent no_handler (msg ∷ msgs) r = handle_all-sent no_handler msgs r
