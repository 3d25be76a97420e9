-- ===== src/Wifi/TestMode/Balance.antt =====
-- The messages and the memory of `wpa_driver_nl80211_testmode` in mediatek_driver_cmd_nl80211.c:
-- what is sent and what is lost.
use native.Mathlib.Nat.{mod-lt, one-le-pow}
use android_device_gionee_p.Common.{
  ◌%◌, ◌^◌, length, zero, ◌+◌, ◌*◌, length-take, Bool-cases, inl, inr, true, ltb, ℕ, suc, ◌<◌, ◌≤◌,
  ◌≡◌, refl, List, [], ◌∷◌, Option, none, some, arith,
}
use android_device_gionee_p.Common.Int.{ℤ, pos, negsuc}
use android_device_gionee_p.Wifi.Netlink.{Bytes, Netlink}
use android_device_gionee_p.Wifi.TestMode.{
  Config, Sizes, Params, wapi_key, Radio, Exchange, no_message, no_room, exchanged, Handler,
  statistics_handler, link_detect_handler, no_handler, go_ready_handler, handle, handle_all,
  on_answer, testmode, hotspot_block_list_update, driver_sw_cmd, sta_block, sta_unblock,
  wpas_get_sta_statistics, wpas_get_sta_link_detect, wpas_p2p_sigma_test_mode,
}
use android_device_gionee_p.Wifi.TestMode.Sent.{Fits, AllFit}
use android_device_gionee_p.Wifi.TestMode.Wapi.{
  WapiKey, suc_ℤ, stored_bits, copied_bytes, copied_len, wapi_params, in_bounds, set_wapi_key,
}
use android_device_gionee_p.Wifi.Strings.{to_u32}

-- How many of the first answers were an exchange, and how many left a message without room.
abbrev pub exchange_of : Exchange → ℕ
exchange_of no_message = 0
exchange_of no_room = 0
exchange_of (exchanged result msgs) = 1

abbrev pub loss_of : Exchange → ℕ
loss_of no_message = 0
loss_of no_room = 1
loss_of (exchanged result msgs) = 0

unfoldable pub exchanges : (ℕ → Exchange) → ℕ → ℕ
exchanges answer zero = 0
exchanges answer (suc n) = exchange_of (answer n) + exchanges answer n

unfoldable pub losses : (ℕ → Exchange) → ℕ → ℕ
losses answer zero = 0
losses answer (suc n) = loss_of (answer n) + losses answer n

-- Every message sent fits, there is one for each exchange, and a message was lost for each answer
-- without room.
abbrev pub IsBalanced : Sizes → Radio → Type 0
IsBalanced sizes r =
    AllFit sizes r.sent
    × (length r.sent ≡ exchanges r.answer r.attempts)
    × (r.leaked ≡ losses r.answer r.attempts)

module _ (nl : Netlink) where
  -- The messages that come back change only what the handlers store.
  handle_all-IsBalanced :
      (h : Handler) (msgs : List Bytes) (sizes : Sizes) (r : Radio)
      → IsBalanced sizes r
      → IsBalanced sizes (handle_all nl h msgs r)
  unfolding handle_all handle
  handle_all-IsBalanced h [] sizes r b = b
  handle_all-IsBalanced statistics_handler (msg ∷ msgs) sizes r b =
      handle_all-IsBalanced statistics_handler msgs sizes (handle nl statistics_handler msg r) b
  handle_all-IsBalanced link_detect_handler (msg ∷ msgs) sizes r b =
      handle_all-IsBalanced link_detect_handler msgs sizes (handle nl link_detect_handler msg r) b
  handle_all-IsBalanced (go_ready_handler attrs) (msg ∷ msgs) sizes r b =
      handle_all-IsBalanced (go_ready_handler attrs) msgs sizes
        (handle nl (go_ready_handler attrs) msg r) b
  handle_all-IsBalanced no_handler (msg ∷ msgs) sizes r b =
      handle_all-IsBalanced no_handler msgs sizes r b

  module _ (config : Config) (sizes : Sizes) where
    on_answer-IsBalanced :
        (a : Exchange) (params : Params) (r : Radio)
        → r.answer r.attempts ≡ a
        → Fits sizes params
        → IsBalanced sizes r
        → IsBalanced sizes (on_answer nl config a params (record r { attempts = suc r.attempts })).1
    unfolding on_answer exchanges losses
    on_answer-IsBalanced no_message params r e fits (all, made, lost) =
        rw e (all, omega arith, omega arith)
    on_answer-IsBalanced no_room params r e fits (all, made, lost) =
        rw e (all, omega arith, omega arith)
    on_answer-IsBalanced (exchanged result msgs) params r e fits (all, made, lost) =
        handle_all-IsBalanced _ msgs sizes
          (record r { attempts = suc r.attempts; sent = params ∷ r.sent })
          (rw e ((fits, all), omega arith, omega arith))

    pub testmode-IsBalanced :
        (params : Params) (r : Radio)
        → Fits sizes params
        → IsBalanced sizes r
        → IsBalanced sizes (testmode nl config params r).1
    unfolding testmode
    testmode-IsBalanced params r = on_answer-IsBalanced (r.answer r.attempts) params r refl

    pub driver_sw_cmd-IsBalanced :
        (set adr dat : ℕ) (r : Radio)
        → adr < 2 ^ 32
        → dat < 2 ^ 32
        → IsBalanced sizes r
        → IsBalanced sizes (driver_sw_cmd nl config sizes set adr dat r).1
    unfolding driver_sw_cmd Fits
    driver_sw_cmd-IsBalanced set adr dat r adr_fits dat_fits all =
        testmode-IsBalanced _ r (refl, ground arith, adr_fits, dat_fits) all

    pub sta_block-IsBalanced :
        (bssid : Option Bytes) (r : Radio)
        → IsBalanced sizes r
        → IsBalanced sizes (sta_block nl config sizes bssid r).1
    unfolding sta_block hotspot_block_list_update Fits
    sta_block-IsBalanced none r all = all
    sta_block-IsBalanced (some bssid) r all = testmode-IsBalanced _ r (refl, omega arith) all

    pub sta_unblock-IsBalanced :
        (bssid : Option Bytes) (r : Radio)
        → IsBalanced sizes r
        → IsBalanced sizes (sta_unblock nl config sizes bssid r).1
    unfolding sta_unblock hotspot_block_list_update Fits
    sta_unblock-IsBalanced none r all = all
    sta_unblock-IsBalanced (some bssid) r all = testmode-IsBalanced _ r (refl, omega arith) all

    pub wpas_get_sta_statistics-IsBalanced :
        (addr : Option Bytes) (r : Radio)
        → IsBalanced sizes r
        → IsBalanced sizes (wpas_get_sta_statistics nl config sizes addr r).1
    unfolding wpas_get_sta_statistics Fits
    wpas_get_sta_statistics-IsBalanced addr r all = testmode-IsBalanced _ r refl all

    pub wpas_get_sta_link_detect-IsBalanced :
        (r : Radio)
        → IsBalanced sizes r
        → IsBalanced sizes (wpas_get_sta_link_detect nl config sizes r).1
    unfolding wpas_get_sta_link_detect Fits
    wpas_get_sta_link_detect-IsBalanced r all = testmode-IsBalanced _ r refl all

    to_u32-fits : (z : ℤ) → to_u32 z < 2 ^ 32
    to_u32-fits (pos n) = omega arith
    to_u32-fits (negsuc n) = omega arith

    pub wpas_p2p_sigma_test_mode-IsBalanced :
        (index value : ℤ) (r : Radio)
        → IsBalanced sizes r
        → IsBalanced sizes (wpas_p2p_sigma_test_mode nl config sizes index value r).1
    unfolding wpas_p2p_sigma_test_mode Fits
    wpas_p2p_sigma_test_mode-IsBalanced index value r all =
        testmode-IsBalanced _ r (refl, to_u32-fits index, to_u32-fits value) all

    -- The copies of a key that is in bounds fit their fields.
    copied_bytes-fits :
        (p : Option Bytes) (len room : ℕ)
        → copied_len p len ≤ room
        → length (copied_bytes p len) ≤ room
    copied_bytes-fits none len room h = omega arith
    copied_bytes-fits (some bytes) len room h = omega (arith, length-take len bytes)

    mod-below : (n bits : ℕ) → n % 2 ^ bits < 2 ^ bits
    mod-below n bits = mod-lt n (omega (arith, one-le-pow bits 2 (omega arith)))

    stored_bits-fits : (bits : ℕ) (z : ℤ) → stored_bits bits z < 2 ^ bits
    stored_bits-fits bits (pos n) = mod-below n bits
    stored_bits-fits bits (negsuc n) = omega (arith, mod-below n bits)

    wapi_params-Fits :
        (k : WapiKey)
        → in_bounds sizes k ≡ true
        → Fits sizes (
            wapi_key
              (record { index = 0x01000002; buflen = sizes.wapi_size })
              (wapi_params sizes k))
    unfolding Fits wapi_params
    wapi_params-Fits k h = (
      refl,
      stored_bits-fits sizes.key_index_bits (suc_ℤ k.key_idx),
      mod-below k.key_len sizes.key_len_bits,
      mod-below (copied_len k.key k.key_len) sizes.ext_key_len_bits,
      copied_bytes-fits k.key k.key_len sizes.wapi_key_room (ground (arith, h)),
      copied_bytes-fits k.seq k.seq_len sizes.wapi_seq_room (ground (arith, h)),
    )

    abbrev pub IsBalancedIn : Option (ℤ × Radio) → Type 0
    IsBalancedIn none = Unit {0}
    IsBalancedIn (some (ret, r)) = IsBalanced sizes r

    pub set_wapi_key-IsBalanced :
        (k : WapiKey) (r : Radio)
        → IsBalanced sizes r
        → IsBalancedIn (set_wapi_key nl config sizes k r)
    unfolding set_wapi_key
    set_wapi_key-IsBalanced k r all =
        elim (Bool-cases (ltb (sizes.iw_encode_seq_max_size * 2) k.seq_len)) [
          | inl long ↦ rw (long, set_wapi_key) all
          | inr short ↦ elim (Bool-cases (in_bounds sizes k)) [
            | inl inside ↦
                rw (short, set_wapi_key)
                  (rw (inside, set_wapi_key)
                    (testmode-IsBalanced _ r (wapi_params-Fits k inside) all))
            | inr outside ↦ rw (short, set_wapi_key) (rw (outside, set_wapi_key) tt)
          ]
        ]
