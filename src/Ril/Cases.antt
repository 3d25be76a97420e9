-- ===== src/Ril/Cases.antt =====
-- The `switch` of `processSolicited` in MediaTekRIL.java: how the answer to each of Android's
-- requests is read.
pub mod Numbers
use android_device_gionee_p.Common.{ℕ, List, [], ◌∷◌}

-- The names of `RILConstants` that have a case, each without its "RIL_REQUEST_".
pub data RequestName : Type 0 where
  get_sim_status enter_sim_pin enter_sim_puk enter_sim_pin2 enter_sim_puk2 change_sim_pin
        change_sim_pin2 enter_depersonalization_code get_current_calls dial get_imsi hangup
        hangup_waiting_or_background hangup_foreground_resume_background
        switch_waiting_or_holding_and_active conference udub last_call_fail_cause signal_strength
        voice_registration_state data_registration_state operator radio_power dtmf send_sms
        send_sms_expect_more setup_data_call sim_io send_ussd cancel_ussd get_clir set_clir
        query_call_forward_status set_call_forward query_call_waiting set_call_waiting
        sms_acknowledge get_imei get_imeisv answer deactivate_data_call query_facility_lock
        set_facility_lock change_barring_password query_network_selection_mode
        set_network_selection_automatic set_network_selection_manual query_available_networks
        dtmf_start dtmf_stop baseband_version separate_connection set_mute get_mute query_clip
        last_data_call_fail_cause data_call_list reset_radio oem_hook_raw oem_hook_strings
        screen_state set_supp_svc_notification write_sms_to_sim delete_sms_on_sim set_band_mode
        query_available_band_mode stk_get_profile stk_set_profile stk_send_envelope_command
        stk_send_terminal_response stk_handle_call_setup_requested_from_sim explicit_call_transfer
        set_preferred_network_type get_preferred_network_type get_neighboring_cell_ids
        set_location_updates cdma_set_subscription_source cdma_set_roaming_preference
        cdma_query_roaming_preference set_tty_mode query_tty_mode
        cdma_set_preferred_voice_privacy_mode cdma_query_preferred_voice_privacy_mode cdma_flash
        cdma_burst_dtmf cdma_send_sms cdma_sms_acknowledge gsm_get_broadcast_config
        gsm_set_broadcast_config gsm_broadcast_activation cdma_get_broadcast_config
        cdma_set_broadcast_config cdma_broadcast_activation cdma_validate_and_write_akey
        cdma_subscription cdma_write_sms_to_ruim cdma_delete_sms_on_ruim device_identity
        get_smsc_address set_smsc_address exit_emergency_callback_mode report_sms_memory_status
        report_stk_service_is_running voice_radio_tech :
      RequestName

-- The functions that read an answer.
pub data Response : Type 0 where
  icc_card_status ints call_list void string signal_strength strings operator_strings sms data_call
        icc_io call_forward operator_infos data_call_list raw preferred_network_type cell_list
        gms_broadcast_config cdma_broadcast_config :
      Response

-- The cases with a name, in two parts, and the cases with a number.
abbrev pub first_cases : List (RequestName × Response)
first_cases =
    (get_sim_status, icc_card_status)
    ∷ (enter_sim_pin, ints)
    ∷ (enter_sim_puk, ints)
    ∷ (enter_sim_pin2, ints)
    ∷ (enter_sim_puk2, ints)
    ∷ (change_sim_pin, ints)
    ∷ (change_sim_pin2, ints)
    ∷ (enter_depersonalization_code, ints)
    ∷ (get_current_calls, call_list)
    ∷ (dial, void)
    ∷ (get_imsi, string)
    ∷ (hangup, void)
    ∷ (hangup_waiting_or_background, void)
    ∷ (hangup_foreground_resume_background, void)
    ∷ (switch_waiting_or_holding_and_active, void)
    ∷ (conference, void)
    ∷ (udub, void)
    ∷ (last_call_fail_cause, ints)
    ∷ (signal_strength, signal_strength)
    ∷ (voice_registration_state, strings)
    ∷ (data_registration_state, strings)
    ∷ []

abbrev pub later_cases : List (RequestName × Response)
later_cases =
    (operator, operator_strings)
    ∷ (radio_power, void)
    ∷ (dtmf, void)
    ∷ (send_sms, sms)
    ∷ (send_sms_expect_more, sms)
    ∷ (setup_data_call, data_call)
    ∷ (sim_io, icc_io)
    ∷ (send_ussd, void)
    ∷ (cancel_ussd, void)
    ∷ (get_clir, ints)
    ∷ (set_clir, void)
    ∷ (query_call_forward_status, call_forward)
    ∷ (set_call_forward, void)
    ∷ (query_call_waiting, ints)
    ∷ (set_call_waiting, void)
    ∷ (sms_acknowledge, void)
    ∷ (get_imei, string)
    ∷ (get_imeisv, string)
    ∷ (answer, void)
    ∷ (deactivate_data_call, void)
    ∷ (query_facility_lock, ints)
    ∷ (set_facility_lock, ints)
    ∷ (change_barring_password, void)
    ∷ (query_network_selection_mode, ints)
    ∷ (set_network_selection_automatic, void)
    ∷ (set_network_selection_manual, void)
    ∷ (query_available_networks, operator_infos)
    ∷ (dtmf_start, void)
    ∷ (dtmf_stop, void)
    ∷ (baseband_version, string)
    ∷ (separate_connection, void)
    ∷ (set_mute, void)
    ∷ (get_mute, ints)
    ∷ (query_clip, ints)
    ∷ (last_data_call_fail_cause, ints)
    ∷ (data_call_list, data_call_list)
    ∷ (reset_radio, void)
    ∷ (oem_hook_raw, raw)
    ∷ (oem_hook_strings, strings)
    ∷ (screen_state, void)
    ∷ (set_supp_svc_notification, void)
    ∷ (write_sms_to_sim, ints)
    ∷ (delete_sms_on_sim, void)
    ∷ (set_band_mode, void)
    ∷ (query_available_band_mode, ints)
    ∷ (stk_get_profile, string)
    ∷ (stk_set_profile, void)
    ∷ (stk_send_envelope_command, string)
    ∷ (stk_send_terminal_response, void)
    ∷ (stk_handle_call_setup_requested_from_sim, ints)
    ∷ (explicit_call_transfer, void)
    ∷ (set_preferred_network_type, void)
    ∷ (get_preferred_network_type, preferred_network_type)
    ∷ (get_neighboring_cell_ids, cell_list)
    ∷ (set_location_updates, void)
    ∷ (cdma_set_subscription_source, void)
    ∷ (cdma_set_roaming_preference, void)
    ∷ (cdma_query_roaming_preference, ints)
    ∷ (set_tty_mode, void)
    ∷ (query_tty_mode, ints)
    ∷ (cdma_set_preferred_voice_privacy_mode, void)
    ∷ (cdma_query_preferred_voice_privacy_mode, ints)
    ∷ (cdma_flash, void)
    ∷ (cdma_burst_dtmf, void)
    ∷ (cdma_send_sms, sms)
    ∷ (cdma_sms_acknowledge, void)
    ∷ (gsm_get_broadcast_config, gms_broadcast_config)
    ∷ (gsm_set_broadcast_config, void)
    ∷ (gsm_broadcast_activation, void)
    ∷ (cdma_get_broadcast_config, cdma_broadcast_config)
    ∷ (cdma_set_broadcast_config, void)
    ∷ (cdma_broadcast_activation, void)
    ∷ (cdma_validate_and_write_akey, void)
    ∷ (cdma_subscription, strings)
    ∷ (cdma_write_sms_to_ruim, ints)
    ∷ (cdma_delete_sms_on_ruim, void)
    ∷ (device_identity, strings)
    ∷ (get_smsc_address, string)
    ∷ (set_smsc_address, void)
    ∷ (exit_emergency_callback_mode, void)
    ∷ (report_sms_memory_status, void)
    ∷ (report_stk_service_is_running, void)
    ∷ (voice_radio_tech, ints)
    ∷ []

abbrev pub numbered_cases : List (ℕ × Response)
numbered_cases = (104, ints) ∷ (105, ints) ∷ (106, strings) ∷ (107, ints) ∷ []
