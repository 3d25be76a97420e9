-- ===== src/Ril/Cases/Numbers.antt =====
-- A numbering of the names of `RILConstants`, with no two alike.
use android_device_gionee_p.Common.{
  ℕ, zero, suc, ◌<◌, ◌≡◌, refl, sym, ap, ◌∙◌, List, [], ◌∷◌, ◌++◌, Option, some, get_elem?, length,
  arith,
}
use android_device_gionee_p.Ril.Cases.{RequestName, Response, first_cases, later_cases}

abbrev names_in : List (RequestName × Response) → List RequestName
names_in [] = []
names_in ((name, r) ∷ rest) = name ∷ names_in rest

abbrev names : List RequestName
names = names_in first_cases ++ names_in later_cases

abbrev pub number : RequestName → ℕ
number RequestName.get_sim_status = 0
number RequestName.enter_sim_pin = 1
number RequestName.enter_sim_puk = 2
number RequestName.enter_sim_pin2 = 3
number RequestName.enter_sim_puk2 = 4
number RequestName.change_sim_pin = 5
number RequestName.change_sim_pin2 = 6
number RequestName.enter_depersonalization_code = 7
number RequestName.get_current_calls = 8
number RequestName.dial = 9
number RequestName.get_imsi = 10
number RequestName.hangup = 11
number RequestName.hangup_waiting_or_background = 12
number RequestName.hangup_foreground_resume_background = 13
number RequestName.switch_waiting_or_holding_and_active = 14
number RequestName.conference = 15
number RequestName.udub = 16
number RequestName.last_call_fail_cause = 17
number RequestName.signal_strength = 18
number RequestName.voice_registration_state = 19
number RequestName.data_registration_state = 20
number RequestName.operator = 21
number RequestName.radio_power = 22
number RequestName.dtmf = 23
number RequestName.send_sms = 24
number RequestName.send_sms_expect_more = 25
number RequestName.setup_data_call = 26
number RequestName.sim_io = 27
number RequestName.send_ussd = 28
number RequestName.cancel_ussd = 29
number RequestName.get_clir = 30
number RequestName.set_clir = 31
number RequestName.query_call_forward_status = 32
number RequestName.set_call_forward = 33
number RequestName.query_call_waiting = 34
number RequestName.set_call_waiting = 35
number RequestName.sms_acknowledge = 36
number RequestName.get_imei = 37
number RequestName.get_imeisv = 38
number RequestName.answer = 39
number RequestName.deactivate_data_call = 40
number RequestName.query_facility_lock = 41
number RequestName.set_facility_lock = 42
number RequestName.change_barring_password = 43
number RequestName.query_network_selection_mode = 44
number RequestName.set_network_selection_automatic = 45
number RequestName.set_network_selection_manual = 46
number RequestName.query_available_networks = 47
number RequestName.dtmf_start = 48
number RequestName.dtmf_stop = 49
number RequestName.baseband_version = 50
number RequestName.separate_connection = 51
number RequestName.set_mute = 52
number RequestName.get_mute = 53
number RequestName.query_clip = 54
number RequestName.last_data_call_fail_cause = 55
number RequestName.data_call_list = 56
number RequestName.reset_radio = 57
number RequestName.oem_hook_raw = 58
number RequestName.oem_hook_strings = 59
number RequestName.screen_state = 60
number RequestName.set_supp_svc_notification = 61
number RequestName.write_sms_to_sim = 62
number RequestName.delete_sms_on_sim = 63
number RequestName.set_band_mode = 64
number RequestName.query_available_band_mode = 65
number RequestName.stk_get_profile = 66
number RequestName.stk_set_profile = 67
number RequestName.stk_send_envelope_command = 68
number RequestName.stk_send_terminal_response = 69
number RequestName.stk_handle_call_setup_requested_from_sim = 70
number RequestName.explicit_call_transfer = 71
number RequestName.set_preferred_network_type = 72
number RequestName.get_preferred_network_type = 73
number RequestName.get_neighboring_cell_ids = 74
number RequestName.set_location_updates = 75
number RequestName.cdma_set_subscription_source = 76
number RequestName.cdma_set_roaming_preference = 77
number RequestName.cdma_query_roaming_preference = 78
number RequestName.set_tty_mode = 79
number RequestName.query_tty_mode = 80
number RequestName.cdma_set_preferred_voice_privacy_mode = 81
number RequestName.cdma_query_preferred_voice_privacy_mode = 82
number RequestName.cdma_flash = 83
number RequestName.cdma_burst_dtmf = 84
number RequestName.cdma_send_sms = 85
number RequestName.cdma_sms_acknowledge = 86
number RequestName.gsm_get_broadcast_config = 87
number RequestName.gsm_set_broadcast_config = 88
number RequestName.gsm_broadcast_activation = 89
number RequestName.cdma_get_broadcast_config = 90
number RequestName.cdma_set_broadcast_config = 91
number RequestName.cdma_broadcast_activation = 92
number RequestName.cdma_validate_and_write_akey = 93
number RequestName.cdma_subscription = 94
number RequestName.cdma_write_sms_to_ruim = 95
number RequestName.cdma_delete_sms_on_ruim = 96
number RequestName.device_identity = 97
number RequestName.get_smsc_address = 98
number RequestName.set_smsc_address = 99
number RequestName.exit_emergency_callback_mode = 100
number RequestName.report_sms_memory_status = 101
number RequestName.report_stk_service_is_running = 102
number RequestName.voice_radio_tech = 103

names-number : (name : RequestName) → get_elem? names (number name) ≡ some name
names-number RequestName.get_sim_status = refl
names-number RequestName.enter_sim_pin = refl
names-number RequestName.enter_sim_puk = refl
names-number RequestName.enter_sim_pin2 = refl
names-number RequestName.enter_sim_puk2 = refl
names-number RequestName.change_sim_pin = refl
names-number RequestName.change_sim_pin2 = refl
names-number RequestName.enter_depersonalization_code = refl
names-number RequestName.get_current_calls = refl
names-number RequestName.dial = refl
names-number RequestName.get_imsi = refl
names-number RequestName.hangup = refl
names-number RequestName.hangup_waiting_or_background = refl
names-number RequestName.hangup_foreground_resume_background = refl
names-number RequestName.switch_waiting_or_holding_and_active = refl
names-number RequestName.conference = refl
names-number RequestName.udub = refl
names-number RequestName.last_call_fail_cause = refl
names-number RequestName.signal_strength = refl
names-number RequestName.voice_registration_state = refl
names-number RequestName.data_registration_state = refl
names-number RequestName.operator = refl
names-number RequestName.radio_power = refl
names-number RequestName.dtmf = refl
names-number RequestName.send_sms = refl
names-number RequestName.send_sms_expect_more = refl
names-number RequestName.setup_data_call = refl
names-number RequestName.sim_io = refl
names-number RequestName.send_ussd = refl
names-number RequestName.cancel_ussd = refl
names-number RequestName.get_clir = refl
names-number RequestName.set_clir = refl
names-number RequestName.query_call_forward_status = refl
names-number RequestName.set_call_forward = refl
names-number RequestName.query_call_waiting = refl
names-number RequestName.set_call_waiting = refl
names-number RequestName.sms_acknowledge = refl
names-number RequestName.get_imei = refl
names-number RequestName.get_imeisv = refl
names-number RequestName.answer = refl
names-number RequestName.deactivate_data_call = refl
names-number RequestName.query_facility_lock = refl
names-number RequestName.set_facility_lock = refl
names-number RequestName.change_barring_password = refl
names-number RequestName.query_network_selection_mode = refl
names-number RequestName.set_network_selection_automatic = refl
names-number RequestName.set_network_selection_manual = refl
names-number RequestName.query_available_networks = refl
names-number RequestName.dtmf_start = refl
names-number RequestName.dtmf_stop = refl
names-number RequestName.baseband_version = refl
names-number RequestName.separate_connection = refl
names-number RequestName.set_mute = refl
names-number RequestName.get_mute = refl
names-number RequestName.query_clip = refl
names-number RequestName.last_data_call_fail_cause = refl
names-number RequestName.data_call_list = refl
names-number RequestName.reset_radio = refl
names-number RequestName.oem_hook_raw = refl
names-number RequestName.oem_hook_strings = refl
names-number RequestName.screen_state = refl
names-number RequestName.set_supp_svc_notification = refl
names-number RequestName.write_sms_to_sim = refl
names-number RequestName.delete_sms_on_sim = refl
names-number RequestName.set_band_mode = refl
names-number RequestName.query_available_band_mode = refl
names-number RequestName.stk_get_profile = refl
names-number RequestName.stk_set_profile = refl
names-number RequestName.stk_send_envelope_command = refl
names-number RequestName.stk_send_terminal_response = refl
names-number RequestName.stk_handle_call_setup_requested_from_sim = refl
names-number RequestName.explicit_call_transfer = refl
names-number RequestName.set_preferred_network_type = refl
names-number RequestName.get_preferred_network_type = refl
names-number RequestName.get_neighboring_cell_ids = refl
names-number RequestName.set_location_updates = refl
names-number RequestName.cdma_set_subscription_source = refl
names-number RequestName.cdma_set_roaming_preference = refl
names-number RequestName.cdma_query_roaming_preference = refl
names-number RequestName.set_tty_mode = refl
names-number RequestName.query_tty_mode = refl
names-number RequestName.cdma_set_preferred_voice_privacy_mode = refl
names-number RequestName.cdma_query_preferred_voice_privacy_mode = refl
names-number RequestName.cdma_flash = refl
names-number RequestName.cdma_burst_dtmf = refl
names-number RequestName.cdma_send_sms = refl
names-number RequestName.cdma_sms_acknowledge = refl
names-number RequestName.gsm_get_broadcast_config = refl
names-number RequestName.gsm_set_broadcast_config = refl
names-number RequestName.gsm_broadcast_activation = refl
names-number RequestName.cdma_get_broadcast_config = refl
names-number RequestName.cdma_set_broadcast_config = refl
names-number RequestName.cdma_broadcast_activation = refl
names-number RequestName.cdma_validate_and_write_akey = refl
names-number RequestName.cdma_subscription = refl
names-number RequestName.cdma_write_sms_to_ruim = refl
names-number RequestName.cdma_delete_sms_on_ruim = refl
names-number RequestName.device_identity = refl
names-number RequestName.get_smsc_address = refl
names-number RequestName.set_smsc_address = refl
names-number RequestName.exit_emergency_callback_mode = refl
names-number RequestName.report_sms_memory_status = refl
names-number RequestName.report_stk_service_is_running = refl
names-number RequestName.voice_radio_tech = refl

pub number-IsDistinct : (name other : RequestName) → number name ≡ number other → name ≡ other
number-IsDistinct name other e =
    let same : ◌≡◌ {A = Option RequestName} (some name) (some other) =
      sym (names-number name) ∙ ap (get_elem? names) e ∙ names-number other in
    cc

get_elem?-length {ℓ} :
    {A : Type ℓ} (xs : List A) (n : ℕ) (a : A) → get_elem? xs n ≡ some a → n < length xs
get_elem?-length [] n a h = cc
get_elem?-length (x ∷ xs) zero a h = omega arith
get_elem?-length (x ∷ xs) (suc n) a h = omega (arith, get_elem?-length xs n a h)

pub number-IsLow : (name : RequestName) → number name < 2000
number-IsLow name = omega (arith, get_elem?-length names (number name) name (names-number name))
