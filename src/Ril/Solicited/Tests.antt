-- ===== src/Ril/Solicited/Tests.antt =====
-- `processSolicited` of MediaTekRIL.java at concrete inputs.
use android_device_gionee_p.Common.{
  ℕ, ◌+◌, ◌≤◌, ◌≡◌, refl, sym, ap, ◌∙◌, List, [], ◌∷◌, Bool, true, false, Option, none, some, ◌==◌,
  ==_iff, if◌then◌else◌, arith, length,
}
use android_device_gionee_p.Format.{Text, codes}
use android_device_gionee_p.Ril.{Ril}
use android_device_gionee_p.Ril.Cases.{operator}
use android_device_gionee_p.Ril.Cases.Numbers.{number, number-IsDistinct, number-IsLow}
use android_device_gionee_p.Ril.Commands.{power_request, set_radio_power}
use android_device_gionee_p.Ril.Operator.{OperatorInfo}
use android_device_gionee_p.Ril.Operator.Named.{Sent, coded, written}
use android_device_gionee_p.Ril.Solicited.{
  Pending, SignalStrength, result, exception, Phone, Android, process_solicited,
}
use android_device_gionee_p.Ril.Solicited.Counts.{
  requests, one_if, held, IsAccounted, IsFinding, here, next, take_on, answer,
}
use android_device_gionee_p.Ril.Solicited.Accounts.{Reach-IsAccounted}
use android_device_gionee_p.Ril.Solicited.Exceptions.{radio_power_excepted}
use android_device_gionee_p.Ril.Solicited.Operators.{present_operator, operator_answered}

-- A parcel with its numbers and its strings.
record Letter : Type 0 where
  ints : List ℕ
  strings : List (Option Text)

abbrev take_int : List ℕ → Letter → ℕ × Letter
take_int [] p = (0, p)
take_int (n ∷ rest) p = (n, record p { ints = rest })

-- The objects that the answers are.
data Answer : Type 0 where
  nothing : Answer
  texts : List (Option Text) → Answer
  networks : List OperatorInfo → Answer
  strength : SignalStrength → Answer

abbrev behind : Pending → Option (Pending × List Pending) → Option (Pending × List Pending)
behind rr none = none
behind rr (some (found, left)) = some (found, rr ∷ left)

find_request : ℕ → List Pending → Option (Pending × List Pending)
find_request n [] = none
find_request n (rr ∷ rest) =
    let later = behind rr (find_request n rest) in if rr.serial == n then some (rr, rest) else later

abbrev android : Android Letter Answer
android = record {
  read_int = λ p. take_int p.ints p;
  data_avail = λ p. length p.ints;
  read_string_array = λ p. some p.strings;
  response_strings = λ p. some p.strings;
  make_signal_strength = λ p. none;
  response = λ r p. some nothing;
  null_object = nothing;
  string_array = texts;
  operator_info_list = networks;
  signal_strength_object = strength;
  find_and_remove = find_request;
  code_of = number;
  names = record { utf16 = λ bytes. bytes; un_optimized_operator_replace = λ t. t };
  device = codes "p4";
  capability = 3;
}

abbrev IsFound : ℕ → List Pending → Pending → List Pending → Type 0
IsFound n ps rr left =
    (rr.serial ≡ n) × ((m : ℕ) → requests m ps ≡ one_if m rr.serial + requests m left)

IsFound-first :
    (n : ℕ) (q rr : Pending) (rest left : List Pending)
    → q.serial ≡ n
    → ◌≡◌ {A = Option (Pending × List Pending)} (some (q, rest)) (some (rr, left))
    → IsFound n (q ∷ rest) rr left
IsFound-first n q rr rest left e h =
    let same : q ≡ rr = cc in
    let others : rest ≡ left = cc in
    (
      sym (ap (λ (p : Pending). p.serial) same) ∙ e,
      λ m. omega (arith, ap (λ (p : Pending). one_if m p.serial) same, ap (requests m) others),
    )

IsFound-behind :
    (n : ℕ) (q rr : Pending) (rest left : List Pending) (o : Option (Pending × List Pending))
    → ((found : Pending) (others : List Pending)
        → o ≡ some (found, others)
        → IsFound n rest found others)
    → behind q o ≡ some (rr, left)
    → IsFound n (q ∷ rest) rr left
IsFound-behind n q rr rest left none ih h = cc
IsFound-behind n q rr rest left (some (found, others)) ih h =
    let same : found ≡ rr = cc in
    let all_others : q ∷ others ≡ left = cc in
    let (e, counts) = ih found others refl in
    (
      sym (ap (λ (p : Pending). p.serial) same) ∙ e,
      λ m. omega (
        arith,
        counts m,
        ap (λ (p : Pending). one_if m p.serial) same,
        ap (requests m) all_others,
      ),
    )

find_request-IsFound :
    (n : ℕ) (ps : List Pending) (rr : Pending) (left : List Pending)
    → find_request n ps ≡ some (rr, left)
    → IsFound n ps rr left
unfolding find_request
find_request-IsFound n [] rr left h = cc
find_request-IsFound n (q ∷ rest) rr left h =
    go (q.serial == n) refl (find_request-IsFound n rest) h
  where
    go :
        (b : Bool)
        → (q.serial == n) ≡ b
        → ((found : Pending) (others : List Pending)
            → find_request n rest ≡ some (found, others)
            → IsFound n rest found others)
        → (if b then some (q, rest) else behind q (find_request n rest)) ≡ some (rr, left)
        → IsFound n (q ∷ rest) rr left
    go true e ih g = IsFound-first n q rr rest left ((==_iff q.serial n).0 e) g
    go false e ih g = IsFound-behind n q rr rest left (find_request n rest) ih g

android-IsFinding : IsFinding android
android-IsFinding = record { found = find_request-IsFound }

-- The question for the operator, and the request for the radio's power.
abbrev question : Pending
question = record { serial = 7; request = number operator; has_result = true }

abbrev power : Pending
power = record { serial = 8; request = 2012; has_result = true }

abbrev waiting : Phone Answer
waiting = record { pending = question ∷ power ∷ []; returned = []; events = []; cops_lac = [] }

abbrev latin_name : Sent
latin_name =
    coded ((0, true, true) ∷ (0x41, true, true) ∷ (0, true, true) ∷ (0x5A, true, true) ∷ [])

abbrev reply : Letter
reply = record {
  ints = 7 ∷ 0 ∷ [];
  strings = some (written latin_name) ∷ some (codes "") ∷ some (codes "20801") ∷ [];
}

abbrev powered : Letter
powered = record { ints = 8 ∷ 0 ∷ []; strings = [] }

abbrev quiet : Ril Letter
quiet = record { sent = []; forwarded = [] }

operator_answered_example : process_solicited android reply waiting ≡ (
  some question,
  record waiting {
    pending = power ∷ [];
    returned = question ∷ [];
    events =
        result 7 (
          texts (
            present_operator android (λ t. t) (λ t. refl) latin_name (codes "") (codes "20801") []))
        ∷ [];
  },
)
unfolding find_request
operator_answered_example =
    operator_answered android (λ t. t) (λ t. refl) question (power ∷ []) latin_name (codes "")
      (codes "20801") [] reply waiting number-IsDistinct refl (omega arith) (omega arith) refl refl
      refl refl

radio_power_excepted_example : process_solicited android powered waiting ≡ (
  some power,
  record waiting { pending = question ∷ []; returned = power ∷ []; events = exception 8 ∷ [] },
)
unfolding find_request set_radio_power
radio_power_excepted_example =
    radio_power_excepted android true none true quiet (power_request true) power (question ∷ [])
      powered waiting number-IsLow refl refl refl refl refl

-- A third request is taken on, and an answer comes that belongs to none, then the operator's.
abbrev stranger : Letter
stranger = record { ints = 40 ∷ 0 ∷ []; strings = [] }

abbrev third : Pending
third = record { serial = 9; request = number operator; has_result = false }

waiting-IsAccounted : IsAccounted waiting
waiting-IsAccounted = record {
  once = λ n. ground arith;
  answered_back = λ n. omega arith;
  all_answered = λ n. omega arith;
}

abbrev after_three : Phone Answer
after_three =
    (process_solicited android reply
      (process_solicited android stranger
        (record waiting { pending = third ∷ waiting.pending })).1).1

Reach-IsAccounted_example : IsAccounted after_three × (held 7 waiting ≤ held 7 after_three)
Reach-IsAccounted_example =
    Reach-IsAccounted android android-IsFinding 7 waiting-IsAccounted
      (next (next (next here (take_on third refl)) (answer stranger)) (answer reply))
