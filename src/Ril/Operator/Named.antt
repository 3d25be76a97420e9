-- ===== src/Ril/Operator/Named.antt =====
-- What `responseOperator` and `responseOperatorInfos` of MediaTekRIL.java make of the names that
-- the modem sends.
use android_device_gionee_p.Common.{
  ℕ, ◌*◌, ◌/◌, ◌%◌, ◌≡◌, refl, List, [], ◌∷◌, ◌++◌, map, Bool, true, false, ◌&&◌, ◌||◌, Option,
  some, ltb, ◌==◌, if◌then◌else◌, length, arith, ==_iff,
}
use android_device_gionee_p.Ril.Operator.Lacs.{IsLeft, behind_lac_lem}
use android_device_gionee_p.Format.{Text, codes}
use android_device_gionee_p.Wifi.Strings.{starts_with}
use android_device_gionee_p.Ril.Hex.{hex_of, bytes_of, AreBytes, hex_string_to_bytes-hex_of}
use android_device_gionee_p.Ril.Operator.{
  Names, OperatorInfo, is_empty, equals, hex_text, lac_valid, behind_lac, with_generation,
  decode_name, named, response_operator, info, infos, response_operator_infos,
}

-- A name as the modem sends it: as it is, or as the bytes of its UTF-16.
pub data Sent : Type 0 where
  plain : Text → Sent
  coded : List (ℕ × Bool × Bool) → Sent

abbrev pub written : Sent → Text
written (plain t) = t
written (coded bytes) = codes "uCs2" ++ hex_of bytes

abbrev pub IsSent : Sent → Type 0
IsSent (plain t) = starts_with (codes "uCs2") t ≡ false
IsSent (coded bytes) = AreBytes bytes

pub record Offer : Type 0 where
  pub sent : Sent
  pub short : Text
  pub numeric : Text
  pub state : Text
  pub generation : Text

abbrev pub AreSent : List Offer → Type 0
AreSent [] = Unit {0}
AreSent (o ∷ rest) = IsSent o.sent × AreSent rest

pub strings_of : List Offer → List (Option Text)
strings_of [] = []
strings_of (o ∷ rest) =
    some (written o.sent)
    ∷ some o.short
    ∷ some o.numeric
    ∷ some o.state
    ∷ some o.generation
    ∷ strings_of rest

abbrev pub generation_behind : ℕ → Text → Text → Text
generation_behind capability generation name =
    if ltb 3 capability then name ++ b' ' ∷ generation else name

length-strings_of : (offers : List Offer) → length (strings_of offers) ≡ 5 * length offers
unfolding strings_of
length-strings_of [] = refl
length-strings_of (o ∷ rest) = omega (arith, length-strings_of rest)

with_generation_lem :
    (capability : ℕ) (generation name : Text)
    → with_generation capability (some generation) (some name)
      ≡ some (some (generation_behind capability generation name))
unfolding with_generation
with_generation_lem capability generation name = both (ltb 3 capability)
  where
    both :
        (b : Bool)
        → ◌≡◌ {A = Option (Option Text)}
            (if b then some (some (name ++ b' ' ∷ generation)) else some (some name))
            (some (some (if b then name ++ b' ' ∷ generation else name)))
    both true = refl
    both false = refl

last_two : (p q r : Bool) → (p && q && r) ≡ true → (q ≡ true) × (r ≡ true)
last_two true true r h = (refl, h)
last_two true false r h = cc
last_two false q r h = cc

lac_valid-IsLeft :
    (lac : Text) (offers : List Offer)
    → hex_text lac ≡ true
    → IsLeft (lac_valid lac (strings_of offers)) (length offers) lac
lac_valid-IsLeft lac offers hex = both (lac_valid lac (strings_of offers)) refl
  where
    both : (b : Bool) → lac_valid lac (strings_of offers) ≡ b → IsLeft b (length offers) lac
    both true e = (hex, long)
      where
        parts :
            ((length lac % 4 == 0) ≡ true)
            × ((length lac / 4 == length (strings_of offers) / 5) ≡ true)
        parts = last_two (ltb 0 (length lac)) _ _ e

        long : length lac ≡ 4 * length offers
        long = omega (
          arith,
          (==_iff (length lac % 4) 0).0 parts.0,
          (==_iff (length lac / 4) (length (strings_of offers) / 5)).0 parts.1,
          length-strings_of offers,
        )
    both false e = tt

module _ (names : Names) (look_up : Text → Text)
    (replaces : (t : Text) → names.un_optimized_operator_replace (some t) ≡ some (look_up t)) where
  abbrev pub meaning : Sent → Text
  meaning (plain t) = t
  meaning (coded bytes) = names.utf16 (bytes_of bytes)

  -- The two names, with the one that is looked up for one that is empty or the number.
  abbrev pub names_of : Text → Text → Text → Text × Text
  names_of name short numeric =
      if is_empty name || equals name (some numeric)
      then (look_up numeric, look_up numeric)
      else (name, short)

  abbrev pub info_of : ℕ → Offer → OperatorInfo
  info_of capability o =
      let (long_name, short_name) = names_of (meaning o.sent) o.short o.numeric in
      record {
        long_name = some (generation_behind capability o.generation long_name);
        short_name = some (generation_behind capability o.generation short_name);
        numeric = some o.numeric;
        state = some o.state;
      }

  decode_name_lem :
      (s : Sent) → IsSent s → decode_name names (some (written s)) ≡ some (some (meaning s))
  unfolding decode_name
  decode_name_lem (plain t) h = rw h refl
  decode_name_lem (coded bytes) h = rw (hex_string_to_bytes-hex_of bytes h) refl

  named_lem :
      (name short numeric : Text)
      → named names (some name) (some short) (some numeric)
        ≡ (some (names_of name short numeric).0, some (names_of name short numeric).1)
  unfolding named
  named_lem name short numeric =
      rw (replaces numeric) (both (is_empty name || equals name (some numeric)))
    where
      pair : Bool → Text × Text
      pair b = if b then (look_up numeric, look_up numeric) else (name, short)

      both :
          (b : Bool)
          → ◌≡◌ {A = Option Text × Option Text}
              (if b
                then (some (look_up numeric), some (look_up numeric))
                else (some name, some short))
              (some (pair b).0, some (pair b).1)
      both true = refl
      both false = refl

  info_lem :
      (capability : ℕ) (valid : Bool) (o : Offer) (lac rest : Text)
      → IsSent o.sent
      → behind_lac valid (some (meaning o.sent)) lac ≡ some rest
      → info names capability valid
          (some (written o.sent))
          (some o.short)
          (some o.numeric)
          (some o.state)
          (some o.generation)
          lac
        ≡ some (info_of capability o, rest)
  unfolding info
  info_lem capability valid o lac rest sent behind = rw (decode_name_lem o.sent sent) (
      rw (behind) (
        rw (named_lem (meaning o.sent) o.short o.numeric) (
          rw
            (with_generation_lem capability o.generation
              (names_of (meaning o.sent) o.short o.numeric).0)
            (rw
              (with_generation_lem capability o.generation
                (names_of (meaning o.sent) o.short o.numeric).1)
              refl))))

  infos_lem :
      (capability : ℕ) (valid : Bool) (offers : List Offer) (lac : Text)
      → AreSent offers
      → IsLeft valid (length offers) lac
      → infos names capability valid (strings_of offers) lac
        ≡ some (map (info_of capability) offers)
  unfolding infos strings_of
  infos_lem capability valid [] lac sent lacs = refl
  infos_lem capability valid (o ∷ rest) lac (sent, more) lacs =
      let (lac_left, behind, lacs_left) =
        behind_lac_lem valid (length rest) (meaning o.sent) lac lacs in
      rw (info_lem capability valid o lac lac_left sent behind)
        (rw (infos_lem capability valid rest lac_left more lacs_left) refl)

  -- The answer to a search for networks, where each name comes as "uCs2" and the bytes of its
  -- UTF-16 in hexadecimal, or as it is and does not begin with "uCs2", where no string is null,
  -- where the look-up of a number that is not null gives a name that is not null, and where the
  -- property "gsm.cops.lac" has hexadecimal digits only: the list of the networks, each with the
  -- name that was sent, or, when that is empty or the network's number, with the name that is
  -- looked up by the number, in both places; with a blank and the generation behind each name
  -- when the baseband has a capability above 3. There is no exception, and the property is
  -- emptied.
  pub response_operator_infos_lem :
      (capability : ℕ) (offers : List Offer) (lac : Text)
      → AreSent offers
      → hex_text lac ≡ true
      → response_operator_infos names capability (strings_of offers) lac
        ≡ (some (map (info_of capability) offers), [])
  unfolding response_operator_infos
  response_operator_infos_lem capability offers lac sent hex =
      rw ((==_iff (length (strings_of offers) % 5) 0).1 (omega (arith, length-strings_of offers))) (
        rw
          (infos_lem capability (lac_valid lac (strings_of offers)) offers lac sent
            (lac_valid-IsLeft lac offers hex))
          refl)

  -- The same name in the answer to the question for the present operator.
  pub response_operator_lem :
      (s : Sent) (short numeric : Text) (rest : List (Option Text))
      → IsSent s
      → response_operator names (some (written s) ∷ some short ∷ some numeric ∷ rest)
        ≡ some (
            some (names_of (meaning s) short numeric).0
            ∷ some (names_of (meaning s) short numeric).1
            ∷ some numeric
            ∷ rest)
  unfolding response_operator
  response_operator_lem s short numeric rest h =
      rw (decode_name_lem s h) (rw (named_lem (meaning s) short numeric) refl)
