-- ===== src/Ril/Solicited.antt =====
-- `processSolicited` of MediaTekRIL.java: the modem's answer to a request. What it takes from
-- Android is a parameter; an answer that a function of Android's cannot read, or reads as null
-- where the code needs it, is `none`.
mod Counts
mod Lookup
mod Given
pub mod Accounts
pub mod Exceptions
pub mod Operators
mod Tests
use android_device_gionee_p.Common.{
  ℕ, List, [], ◌∷◌, ◌++◌, map, Bool, true, false, ◌&&◌, ◌||◌, Option, none, some, ltb, ◌==◌,
  if◌then◌else◌,
}
use android_device_gionee_p.Common.Int.{ℤ}
use android_device_gionee_p.Format.{Text, codes}
use android_device_gionee_p.Wifi.Strings.{starts_with}
use android_device_gionee_p.Ril.{find_case}
use android_device_gionee_p.Ril.Cases.{
  RequestName, baseband_version, Response, operator_strings, operator_infos, signal_strength,
  first_cases, later_cases, numbered_cases,
}
use android_device_gionee_p.Ril.Operator.{
  Names, OperatorInfo, and_then, response_operator, response_operator_infos,
}

-- What `RILRequest` has of a request: `has_result` is whether `mResult` is not null.
pub record Pending : Type 0 where
  pub serial : ℕ
  pub request : ℕ
  pub has_result : Bool

-- The arguments of `new SignalStrength`.
pub record SignalStrength : Type 0 where
  pub gsm_signal_strength : ℤ
  pub gsm_bit_error_rate : ℤ
  pub cdma_dbm : ℤ
  pub cdma_ecio : ℤ
  pub evdo_dbm : ℤ
  pub evdo_ecio : ℤ
  pub evdo_snr : ℤ
  pub is_gsm : Bool

-- An answer with its object, an answer with a throwable, and `rr.onError(error, ret)`; each with
-- its serial.
pub data Told (Object : Type 0) : Type 0 where
  result : ℕ → Object → Told Object
  exception : ℕ → Told Object
  on_error : ℕ → ℕ → Object → Told Object

pub record Phone (Object : Type 0) : Type 0 where
  -- `mRequestList`; the requests given back to the caller, and what was said about them, newest
  -- first.
  pub pending : List Pending
  pub returned : List Pending
  pub events : List (Told Object)
  -- The property "gsm.cops.lac".
  pub cops_lac : Text

pub record Android (Parcel Object : Type 0) : Type 0 where
  pub read_int : Parcel → ℕ × Parcel
  pub data_avail : Parcel → ℕ
  pub read_string_array : Parcel → Option (List (Option Text))
  pub response_strings : Parcel → Option (List (Option Text))
  pub make_signal_strength : Parcel → Option SignalStrength
  -- The other functions that read an answer.
  pub response : Response → Parcel → Option Object
  pub null_object : Object
  pub string_array : List (Option Text) → Object
  pub operator_info_list : List OperatorInfo → Object
  pub signal_strength_object : SignalStrength → Object
  -- `findAndRemoveRequestFromList`, with the list behind it.
  pub find_and_remove : ℕ → List Pending → Option (Pending × List Pending)
  -- The numbers of `RILConstants`.
  pub code_of : RequestName → ℕ
  pub names : Names
  -- The property "ro.cm.device", and the baseband's capability.
  pub device : Text
  pub capability : ℕ

abbrev pub with_codes : (RequestName → ℕ) → List (RequestName × Response) → List (ℕ × Response)
with_codes code_of [] = []
with_codes code_of ((name, r) ∷ cases) = (code_of name, r) ∷ with_codes code_of cases

abbrev pub serial_of : {Object : Type 0} → Told Object → ℕ
serial_of (result n o) = n
serial_of (exception n) = n
serial_of (on_error n error o) = n

abbrev pub response_signal_strength : SignalStrength → SignalStrength
response_signal_strength s = record s { is_gsm = true }

abbrev pub give_back :
    {Object : Type 0} → Pending → List (Told Object) → Phone Object → Option Pending × Phone Object
give_back rr said s = (some rr, record s { returned = rr ∷ s.returned; events = said ++ s.events })

abbrev pub conclude :
    {Object : Type 0} → Pending → ℕ → Object → Phone Object → Option Pending × Phone Object
conclude rr error ret s =
    if error == 0
    then give_back rr (if rr.has_result then result rr.serial ret ∷ [] else []) s
    else give_back rr (on_error rr.serial error ret ∷ []) s

module _ {Parcel Object : Type 0} (android : Android Parcel Object) where
  pub cases : List (ℕ × Response)
  cases =
      with_codes android.code_of first_cases
      ++ (with_codes android.code_of later_cases ++ numbered_cases)

  -- With the new value of "gsm.cops.lac".
  pub read_answer : Response → Parcel → Text → Option Object × Text
  read_answer operator_strings p lac = (
    and_then (android.read_string_array p) (λ strings.
        and_then (response_operator android.names strings)
          (λ names. some (android.string_array names))),
    lac,
  )
  read_answer operator_infos p lac = elim (android.response_strings p) [
    | none ↦ (none, lac)
    | some strings ↦
        let (infos, new_lac) =
          response_operator_infos android.names android.capability strings lac in
        (and_then infos (λ list. some (android.operator_info_list list)), new_lac)
  ]
  read_answer signal_strength p lac = (
    and_then (android.make_signal_strength p)
        (λ s. some (android.signal_strength_object (response_signal_strength s))),
    lac,
  )
  read_answer r p lac = (android.response r p, lac)

  -- The second `switch`'s value, or the exception of its default.
  pub read_case : Option Response → Parcel → Text → Option Object × Text
  unfolding read_answer
  read_case none p lac = (none, lac)
  read_case (some r) p lac = read_answer r p lac

  abbrev pub converted : Pending → Pending
  converted rr =
      if starts_with (codes "e73") android.device && rr.request == 220
      then record rr { request = android.code_of baseband_version }
      else rr

  pub on_read : Pending → ℕ → Option Object × Text → Phone Object → Option Pending × Phone Object
  on_read rr error (none, lac) s =
      give_back rr (if rr.has_result then exception rr.serial ∷ [] else [])
        (record s { cops_lac = lac })
  on_read rr error (some ret, lac) s = conclude rr error ret (record s { cops_lac = lac })

  pub on_found : Pending → ℕ → Parcel → Phone Object → Option Pending × Phone Object
  unfolding on_read read_case find_case cases starts_with
  on_found rr error p s =
      if error == 0 || ltb 0 (android.data_avail p)
      then on_read (converted rr) error
          (read_case (find_case (converted rr).request cases) p s.cops_lac) s
      else conclude rr error android.null_object s

  pub respond :
      Option (Pending × List Pending) → ℕ → Parcel → Phone Object → Option Pending × Phone Object
  unfolding on_found
  respond none error p s = (none, s)
  respond (some (rr, left)) error p s = on_found rr error p (record s { pending = left })

  -- The request that is given back, or null.
  pub process_solicited : Parcel → Phone Object → Option Pending × Phone Object
  unfolding respond
  process_solicited p s =
      let (serial, behind) = android.read_int p in
      let (error, body) = android.read_int behind in
      respond (android.find_and_remove serial s.pending) error body s
