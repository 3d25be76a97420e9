-- ===== src/Ril/Operator.antt =====
-- The operators' names of MediaTekRIL.java: `responseOperator` and `responseOperatorInfos`, from
-- the strings of the parcel on. A string is `none` where it is null, and the result is `none`
-- where there is an exception.
mod Lacs
pub mod Named
use android_device_gionee_p.Common.{
  ℕ, ◌+◌, ◌*◌, ◌/◌, ◌%◌, List, [], ◌∷◌, ◌++◌, Bool, true, false, ◌&&◌, ◌||◌, Option, none, some,
  ltb, ◌==◌, if◌then◌else◌, length, take, drop,
}
use android_device_gionee_p.Format.{Text, codes}
use android_device_gionee_p.Wifi.Strings.{starts_with, digit_value}
use android_device_gionee_p.Ril.Hex.{hex_string_to_bytes}

-- `new String(bytes, "UTF-16")`, and `Operators.unOptimizedOperatorReplace`.
pub record Names : Type 0 where
  pub utf16 : List ℕ → Text
  pub un_optimized_operator_replace : Option Text → Option Text

pub record OperatorInfo : Type 0 where
  pub long_name : Option Text
  pub short_name : Option Text
  pub numeric : Option Text
  pub state : Option Text

abbrev pub and_then {ℓ κ} : {A : Type ℓ} {B : Type κ} → Option A → (A → Option B) → Option B
and_then none f = none
and_then (some a) f = f a

abbrev pub is_empty : Text → Bool
is_empty [] = true
is_empty (c ∷ t) = false

pub equals : Text → Option Text → Bool
equals t none = false
equals [] (some []) = true
equals [] (some (d ∷ u)) = false
equals (c ∷ t) (some []) = false
equals (c ∷ t) (some (d ∷ u)) = c == d && equals t (some u)

unfoldable pub hex_text : Text → Bool
hex_text [] = true
hex_text (c ∷ t) = ltb (digit_value c) 16 && hex_text t

-- Whether `Integer.parseInt(lac, 16)` returns; what it returns is only logged.
abbrev pub readable_lac : Text → Bool
readable_lac [] = false
readable_lac (c ∷ t) =
    hex_text (c ∷ t) || ((c == b'-' || c == b'+') && ltb 0 (length t) && hex_text t)

abbrev pub lac_valid : Text → List (Option Text) → Bool
lac_valid lac strings =
    ltb 0 (length lac) && length lac % 4 == 0 && length lac / 4 == length strings / 5

-- The text of the LACs from `lacIndex` on, behind the one that is read.
pub behind_lac : Bool → Option Text → Text → Option Text
unfolding hex_text
behind_lac true (some name) lac = if readable_lac (take 4 lac) then some (drop 4 lac) else none
behind_lac _ name lac = some lac

-- The text behind a string that `concat` appends; a null one is appended as four letters.
abbrev pub or_null : Option Text → Text
or_null none = codes "null"
or_null (some t) = t

pub with_generation : ℕ → Option Text → Option Text → Option (Option Text)
with_generation capability generation none = if ltb 3 capability then none else some none
with_generation capability generation (some name) =
    if ltb 3 capability then some (some (name ++ b' ' ∷ or_null generation)) else some (some name)

module _ (names : Names) where
  pub decode_name : Option Text → Option (Option Text)
  unfolding starts_with
  decode_name none = some none
  decode_name (some t) =
      if starts_with (codes "uCs2") t
      then and_then (hex_string_to_bytes (drop 4 t)) (λ bytes. some (some (names.utf16 bytes)))
      else some (some t)

  -- The two names, from the name behind its decoding.
  pub named : Option Text → Option Text → Option Text → Option Text × Option Text
  unfolding equals
  named none short numeric = (none, short)
  named (some name) short numeric =
      if is_empty name || equals name numeric
      then (
        names.un_optimized_operator_replace numeric,
        names.un_optimized_operator_replace numeric,
      )
      else (some name, short)

  abbrev pub renamed : Option Text → List (Option Text) → Option (List (Option Text))
  renamed none rest = some (none ∷ rest)
  renamed (some name) (short ∷ numeric ∷ rest) =
      let (long_name, short_name) = named (some name) short numeric in
      some (long_name ∷ short_name ∷ numeric ∷ rest)
  renamed (some name) rest = none

  pub response_operator : List (Option Text) → Option (List (Option Text))
  unfolding decode_name named
  response_operator [] = none
  response_operator (name ∷ rest) =
      and_then (decode_name name) (λ long_name. renamed long_name rest)

  -- One turn of the loop, and the LACs behind it.
  pub info :
      ℕ
      → Bool
      → Option Text
      → Option Text
      → Option Text
      → Option Text
      → Option Text
      → Text
      → Option (OperatorInfo × Text)
  unfolding decode_name named behind_lac with_generation
  info capability valid name short numeric state generation lac =
      and_then (decode_name name) (λ decoded_name.
        and_then (behind_lac valid decoded_name lac) (λ lac_left.
          and_then (with_generation capability generation (named decoded_name short numeric).0)
            (λ long_name.
              and_then (with_generation capability generation (named decoded_name short numeric).1)
                (λ short_name. some (
                  record {
                    long_name = long_name;
                    short_name = short_name;
                    numeric = numeric;
                    state = state;
                  },
                  lac_left,
                )))))

  pub infos : ℕ → Bool → List (Option Text) → Text → Option (List OperatorInfo)
  unfolding info
  infos capability valid [] lac = some []
  infos capability valid (name ∷ short ∷ numeric ∷ state ∷ generation ∷ rest) lac =
      and_then (info capability valid name short numeric state generation lac) (λ found.
        and_then (infos capability valid rest found.1) (λ others. some (found.0 ∷ others)))
  infos capability valid strings lac = none

  -- With the new value of the property "gsm.cops.lac", whose old one is `lac`; `capability` is
  -- the baseband's.
  pub response_operator_infos : ℕ → List (Option Text) → Text → Option (List OperatorInfo) × Text
  unfolding infos
  response_operator_infos capability strings lac =
      if length strings % 5 == 0
      then (infos capability (lac_valid lac strings) strings lac, [])
      else (none, lac)
