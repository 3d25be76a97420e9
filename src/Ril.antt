-- ===== src/Ril.antt =====
-- ril/telephony/java/com/android/internal/telephony/MediaTekRIL.java: what reaches Android's own
-- RIL class of the modem's unsolicited responses, and the requests that the class adds. The
-- superclass and its codes are a parameter, and so is the parcel that the response comes in. An
-- `int` is its 32 bits as a number.
pub mod Cases
pub mod Commands
pub mod Hex
pub mod Operator
pub mod Outcome
pub mod Rewrites
pub mod Solicited
mod Tests
use android_device_gionee_p.Common.{
  ℕ, zero, suc, ◌+◌, ◌-◌, ◌*◌, ◌^◌, List, [], ◌∷◌, ◌++◌, Bool, true, false, ◌&&◌, Option, none,
  some, ltb, leb, ◌==◌, if◌then◌else◌, get_or, get_elem?, set, length,
}
use android_device_gionee_p.Common.Int.{ℤ, pos, negsuc, neg_ℕ}
use android_device_gionee_p.Format.{Text}

-- `android.os.Parcel`.
pub record ParcelClass (Parcel : Type 0) : Type 0 where
  pub data_position : Parcel → ℕ
  pub set_data_position : ℕ → Parcel → Parcel
  pub read_int : Parcel → ℕ × Parcel
  pub write_int : ℕ → Parcel → Parcel

-- `RIL.responseStrings` and `RIL.responseInts` with the parcel behind what they read, or an
-- exception; and the codes of `RILConstants`.
pub record Superclass (Parcel : Type 0) : Type 0 where
  pub response_strings : Parcel → Option (List Text × Parcel)
  pub response_ints : Parcel → Option Parcel
  pub radio_state_changed : ℕ
  pub call_state_changed : ℕ
  pub voice_network_state_changed : ℕ
  pub sim_status_changed : ℕ

-- A request, and what is written into its parcel: the numbers, then the strings, which may be null.
pub record Request : Type 0 where
  pub request : ℕ
  pub ints : List ℤ
  pub strings : List (Option Text)

pub record Ril (Parcel : Type 0) : Type 0 where
  -- Newest first: the requests sent, and the parcels handed to `super.processUnsolicited`.
  pub sent : List Request
  pub forwarded : List Parcel

-- How a response is read.
pub data Reader : Type 0 where
  strings ints void crss etws : Reader

-- `RIL_UNSOL_MTK_BASE` and the responses that are looked at again below.
abbrev pub unsol_base : ℕ
unsol_base = 3000

abbrev pub call_progress_info : ℕ
call_progress_info = unsol_base + 4

abbrev pub incoming_call_indication : ℕ
incoming_call_indication = unsol_base + 14

-- The first `switch`.
abbrev pub readers : {Parcel : Type 0} → Superclass Parcel → List (ℕ × Reader)
readers sup =
    (3000, strings)
    ∷ (3001, strings)
    ∷ (3002, ints)
    ∷ (3003, crss)
    ∷ (3004, strings)
    ∷ (3005, void)
    ∷ (3007, ints)
    ∷ (3015, ints)
    ∷ (3018, ints)
    ∷ (3019, ints)
    ∷ (3020, ints)
    ∷ (3006, ints)
    ∷ (3008, ints)
    ∷ (3009, void)
    ∷ (3010, void)
    ∷ (3012, ints)
    ∷ (3013, void)
    ∷ (3011, ints)
    ∷ (3016, void)
    ∷ (3014, strings)
    ∷ (3024, ints)
    ∷ (3022, void)
    ∷ (3021, strings)
    ∷ (3023, ints)
    ∷ (3025, void)
    ∷ (3026, ints)
    ∷ (3027, ints)
    ∷ (3028, ints)
    ∷ (3029, etws)
    ∷ (3030, strings)
    ∷ (3031, ints)
    ∷ (sup.radio_state_changed, void)
    ∷ []

-- The codes that the second `switch` puts in.
abbrev pub replacements : {Parcel : Type 0} → Superclass Parcel → List (ℕ × ℕ)
replacements sup =
    (call_progress_info, sup.call_state_changed)
    ∷ (incoming_call_indication, sup.call_state_changed)
    ∷ (3022, sup.voice_network_state_changed)
    ∷ (3007, sup.sim_status_changed)
    ∷ (3015, sup.sim_status_changed)
    ∷ (3027, sup.sim_status_changed)
    ∷ (3028, sup.sim_status_changed)
    ∷ (sup.radio_state_changed, sup.radio_state_changed)
    ∷ []

pub find_case {ℓ} : {A : Type ℓ} → ℕ → List (ℕ × A) → Option A
find_case code [] = none
find_case code ((label, a) ∷ cases) =
    let rest = find_case code cases in if code == label then some a else rest

-- `Integer.parseInt` on ASCII text.
pub parse_digits : ℕ → Text → Option ℕ
parse_digits n [] = some n
parse_digits n (c ∷ rest) = elim (leb b'0' c && leb c b'9') [
  | true ↦ parse_digits (n * 10 + (c - b'0')) rest
  | false ↦ none
]

abbrev pub in_int : Bool → Option ℕ → Option ℤ
in_int negative none = none
in_int true (some n) = if leb n (2 ^ 31) then some (neg_ℕ n) else none
in_int false (some n) = if ltb n (2 ^ 31) then some (pos n) else none

abbrev pub parse_unsigned : Text → Option ℕ
parse_unsigned [] = none
parse_unsigned (c ∷ rest) = parse_digits 0 (c ∷ rest)

abbrev pub parse_int : Text → Option ℤ
parse_int [] = none
parse_int (c ∷ rest) =
    if c == b'-'
    then in_int true (parse_unsigned rest)
    else if c == b'+'
    then in_int false (parse_unsigned rest)
    else in_int false (parse_unsigned (c ∷ rest))

abbrev pub parse_at : List Text → ℕ → Option ℤ
parse_at info i = elim (get_elem? info i) [ none ↦ none | some t ↦ parse_int t ]

-- `setCallIndication`; `callMode` is read, and then is 0.
abbrev pub call_indication : Option ℤ → Option ℤ → Option ℤ → Option Request
call_indication (some call_id) (some call_mode) (some seq_number) =
    some (record { request = 2036; ints = pos 3 ∷ pos 0 ∷ call_id ∷ seq_number ∷ []; strings = [] })
call_indication _ _ _ = none

abbrev pub send : {Parcel : Type 0} → Request → Ril Parcel → Ril Parcel
send rr r = record r { sent = rr ∷ r.sent }

pub set_call_indication : {Parcel : Type 0} → List Text → Ril Parcel → Option (Ril Parcel)
unfolding parse_digits
set_call_indication info r =
    elim (call_indication (parse_at info 0) (parse_at info 3) (parse_at info 4)) [
      | none ↦ none
      | some rr ↦ some (send rr r)
    ]

-- `RIL_REQUEST_SET_GPRS_TRANSFER_TYPE`, then `RIL_REQUEST_SET_GPRS_CONNECT_TYPE`.
pub set_radio_state_from_ril_int : {Parcel : Type 0} → ℕ → Ril Parcel → Ril Parcel
set_radio_state_from_ril_int state_code r =
    if leb state_code 1
    then r
    else send (record { request = 2016; ints = pos 1 ∷ pos 1 ∷ []; strings = [] })
        (send (record { request = 2017; ints = pos 1 ∷ pos 1 ∷ []; strings = [] }) r)

module _ {Parcel : Type 0} (cls : ParcelClass Parcel) (sup : Superclass Parcel) where
  -- `ret`, for the response that uses it, and the parcel behind it.
  abbrev pub read_response : Reader → Parcel → Option (List Text × Parcel)
  read_response strings p = sup.response_strings p
  read_response ints p = elim (sup.response_ints p) [ none ↦ none | some q ↦ some ([], q) ]
  read_response _ p = some ([], p)

  -- The effects of the second `switch`, and the parcel behind them.
  pub before_rewrite : ℕ → List Text → Parcel → Ril Parcel → Option (Ril Parcel)
  unfolding set_call_indication set_radio_state_from_ril_int
  before_rewrite response ret p r =
      if response == incoming_call_indication
      then set_call_indication ret r
      else if response == sup.radio_state_changed
      then some (set_radio_state_from_ril_int (cls.read_int p).0 r)
      else some r

  abbrev pub read_on : ℕ → Parcel → Parcel
  read_on response p = if response == sup.radio_state_changed then (cls.read_int p).1 else p

  abbrev pub hand_on : Parcel → Ril Parcel → Ril Parcel
  hand_on p r = record r { forwarded = p ∷ r.forwarded }

  -- `if (rewindAndReplace)`
  pub rewrite : ℕ → Option ℕ → Parcel → Ril Parcel → Ril Parcel
  rewrite data_position none p r = r
  rewrite data_position (some code) p r =
      hand_on
        (cls.set_data_position data_position
          (cls.write_int code (cls.set_data_position data_position p)))
        r

  pub known : ℕ → ℕ → Option (List Text × Parcel) → Ril Parcel → Option (Ril Parcel)
  unfolding before_rewrite rewrite find_case
  known data_position response none r = none
  known data_position response (some (ret, q)) r = elim (before_rewrite response ret q r) [
    | none ↦ none
    | some s ↦
        some (rewrite data_position (find_case response (replacements sup)) (read_on response q) s)
  ]

  pub dispatch : ℕ → ℕ → Option Reader → Parcel → Ril Parcel → Option (Ril Parcel)
  unfolding known
  dispatch data_position response none p r =
      some (hand_on (cls.set_data_position data_position p) r)
  dispatch data_position response (some reader) p r =
      known data_position response (read_response reader p) r

  pub process_unsolicited : Parcel → Ril Parcel → Option (Ril Parcel)
  unfolding dispatch find_case
  process_unsolicited p r =
      let (response, behind) = cls.read_int p in
      dispatch (cls.data_position p) response (find_case response (readers sup)) behind r
