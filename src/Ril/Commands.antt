-- ===== src/Ril/Commands.antt =====
-- The commands of MediaTekRIL.java that the platform calls: `setRadioPower`, `setupDataCall`,
-- `setUiccSubscription`, `setDataSubscription` and `setDefaultVoiceSub`.
use android_device_gionee_p.Common.{
  ℕ, List, [], ◌∷◌, Bool, false, not, ◌==◌, Option, none, some, if◌then◌else◌,
}
use android_device_gionee_p.Common.Int.{ℤ, pos, negsuc}
use android_device_gionee_p.Format.{Text, codes}
use android_device_gionee_p.Ril.{Request, Ril, send}

-- `mInstanceId != null && mInstanceId == 1`
abbrev pub is_second_sim : Option ℤ → Bool
is_second_sim none = false
is_second_sim (some (pos n)) = n == 1
is_second_sim (some (negsuc n)) = false

-- `RIL_REQUEST_DUAL_SIM_MODE_SWITCH`
abbrev pub power_request : Bool → Request
power_request on = record {
  request = 2012;
  ints = pos 1 ∷ (if on then pos 3 else negsuc 0) ∷ [];
  strings = [];
}

-- `allow` is the property "persist.ril.enable".
unfoldable pub set_radio_power :
    {Parcel : Type 0} → Bool → Option ℤ → Bool → Ril Parcel → Ril Parcel
set_radio_power allow instance_id on r =
    if not allow then r else if is_second_sim instance_id then r else send (power_request on) r

-- `code` is `RIL_REQUEST_SETUP_DATA_CALL`, and the strings are the arguments in their order.
pub setup_data_call :
    {Parcel : Type 0}
    → ℕ
    → Option Text
    → Option Text
    → Option Text
    → Option Text
    → Option Text
    → Option Text
    → Option Text
    → Ril Parcel
    → Ril Parcel
setup_data_call code radio_technology profile apn user password auth_type protocol r =
    send
      (record {
        request = code;
        ints = pos 8 ∷ [];
        strings =
            radio_technology
            ∷ profile
            ∷ apn
            ∷ user
            ∷ password
            ∷ auth_type
            ∷ protocol
            ∷ some (codes "1")
            ∷ [];
      })
      r

-- What a command says at once: its result 0 to the caller, or a status to the registrants.
pub data Notice : Type 0 where
  told_zero : Notice
  told_status : ℕ → Notice

-- A result that is null is an exception.
abbrev pub tell_zero : Bool → Option (List Notice)
tell_zero has_result = if has_result then some (told_zero ∷ []) else none

abbrev pub status_notice : ℤ → List Notice
status_notice (pos n) =
    if n == 1 then told_status 1 ∷ [] else if n == 0 then told_status 0 ∷ [] else []
status_notice (negsuc n) = []

pub set_uicc_subscription : Bool → ℤ → Bool → Option (List Notice)
set_uicc_subscription has_registrants sub_status has_result =
    if has_result
    then some (told_zero ∷ (if has_registrants then status_notice sub_status else []))
    else none

pub set_data_subscription : Bool → Option (List Notice)
set_data_subscription has_result = tell_zero has_result

pub set_default_voice_sub : Bool → Option (List Notice)
set_default_voice_sub has_result = tell_zero has_result
