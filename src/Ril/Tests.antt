-- ===== src/Ril/Tests.antt =====
-- MediaTekRIL.java at concrete inputs.
use android_device_gionee_p.Common.{
  ℕ, suc, ◌≡◌, refl, sym, ap, map, List, [], ◌∷◌, Bool, true, false, Option, none, some, ◌==◌,
  if◌then◌else◌, arith,
}
use android_device_gionee_p.Format.{Text, codes}
use android_device_gionee_p.Wifi.Strings.{starts_with}
use android_device_gionee_p.Ril.{
  ParcelClass, Superclass, Ril, readers, find_case, process_unsolicited,
}
use android_device_gionee_p.Ril.Operator.{Names, hex_text, response_operator_infos}
use android_device_gionee_p.Ril.Operator.Named.{
  Offer, coded, plain, strings_of, info_of, response_operator_infos_lem,
}
use android_device_gionee_p.Ril.Outcome.{Contents, put, IsParcel, view_of, outcome}
use android_device_gionee_p.Ril.Rewrites.{process_unsolicited_lem}

-- The letters AZ in UTF-16.
abbrev letters : List (ℕ × Bool × Bool)
letters = (0, true, true) ∷ (0x41, true, true) ∷ (0, true, false) ∷ (0x5A, false, true) ∷ []

abbrev latin : Names
latin = record { utf16 = λ bytes. bytes; un_optimized_operator_replace = λ t. t }

-- Two networks: one with its name in UTF-16, one without a name; and their two LACs.
abbrev found : List Offer
found =
    record {
      sent = coded letters;
      short = codes "AZ";
      numeric = codes "20801";
      state = codes "current";
      generation = codes "2G";
    }
    ∷ record {
      sent = plain [];
      short = codes "";
      numeric = codes "20802";
      state = codes "available";
      generation = codes "3G";
    }
    ∷ []

lacs_hex : hex_text (codes "00fffffe") ≡ true
unfolding hex_text
lacs_hex = refl

response_operator_infos_lem_example :
    response_operator_infos latin 4 (strings_of found) (codes "00fffffe")
    ≡ (some (map (info_of latin (λ t. t) (λ t. refl) 4) found), [])
unfolding starts_with
response_operator_infos_lem_example =
    response_operator_infos_lem latin (λ t. t) (λ t. refl) 4 found (codes "00fffffe")
      (omega arith, (refl, tt)) lacs_hex

-- A parcel as its words, and the functions of its class.
abbrev words : ParcelClass Contents
words = record {
  data_position = λ p. p.place;
  set_data_position = λ n p. record p { place = n };
  read_int = λ p. (p.int_at p.place, record p { place = suc p.place });
  write_int = λ v p. record { int_at = put p.place v p.int_at; place = suc p.place };
}

-- A caller with the number 0.
abbrev sup : Superclass Contents
sup = record {
  response_strings = λ p.
      some
        ((codes "1" ∷ codes "" ∷ codes "" ∷ codes "0" ∷ codes "129" ∷ []), record p { place = 8 });
  response_ints = λ p. some (record p { place = suc p.place });
  radio_state_changed = 1000;
  call_state_changed = 1001;
  voice_network_state_changed = 1002;
  sim_status_changed = 1019;
}

abbrev quiet : Ril Contents
quiet = record { sent = []; forwarded = [] }

abbrev string_ints : (ℕ → ℕ) → Option (List Text × Contents) → ℕ → ℕ
string_ints at none = at
string_ints at (some (ret, q)) = q.int_at

abbrev ints_ints : (ℕ → ℕ) → Option Contents → ℕ → ℕ
ints_ints at none = at
ints_ints at (some q) = q.int_at

words-IsParcel : IsParcel words sup (λ p. p)
words-IsParcel = record {
  position = λ p. refl;
  set_position = λ n p. refl;
  reads_int = λ p. refl;
  reading = λ p. refl;
  writing = λ v p. refl;
  reading_strings = λ p q ret e. sym (ap (string_ints p.int_at) e);
  reading_ints = λ p q e. sym (ap (ints_ints p.int_at) e);
}

abbrev ringing : Contents
ringing = record { int_at = λ i. if i == 1 then 3014 else 5; place = 1 }

process_unsolicited_lem_example :
    view_of (λ p. p) (process_unsolicited words sup ringing quiet)
    ≡ outcome words sup (λ p. p) (find_case 3014 (readers sup)) ringing quiet
process_unsolicited_lem_example =
    process_unsolicited_lem words sup (λ p. p) words-IsParcel ringing quiet
