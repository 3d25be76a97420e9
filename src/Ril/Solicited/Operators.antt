-- ===== src/Ril/Solicited/Operators.antt =====
-- The answer to the question for the present operator, from the modem to who asked, in
-- MediaTekRIL.java.
use android_device_gionee_p.Common.{◌≡◌, ◌≢◌, refl, sym, ◌∙◌, List, ◌∷◌, true, Option, some}
use android_device_gionee_p.Format.{Text}
use android_device_gionee_p.Ril.Cases.{operator}
use android_device_gionee_p.Ril.Operator.Named.{
  Sent, written, IsSent, meaning, names_of, response_operator_lem,
}
use android_device_gionee_p.Ril.Solicited.{
  Pending, result, Phone, Android, on_read, read_case, read_answer, on_found, respond,
  process_solicited,
}
use android_device_gionee_p.Ril.Solicited.Lookup.{
  AreDistinct, find_case-cases_operator, converted-other,
}

module _ {Parcel Object : Type 0} (android : Android Parcel Object) (look_up : Text → Text)
    (replaces : (t : Text)
      → android.names.un_optimized_operator_replace (some t) ≡ some (look_up t)) where
  -- The three strings that `responseOperator` gives for a name, and what was behind them.
  abbrev pub present_operator : Sent → Text → Text → List (Option Text) → List (Option Text)
  present_operator name short numeric rest =
      let (long_name, short_name) =
        names_of android.names look_up replaces (meaning android.names look_up replaces name) short
          numeric in
      some long_name ∷ some short_name ∷ some numeric ∷ rest

  on_found-operator :
      (rr : Pending) (name : Sent) (short numeric : Text) (rest : List (Option Text)) (p : Parcel)
      (s : Phone Object)
      → AreDistinct android
      → rr.request ≡ android.code_of operator
      → android.code_of operator ≢ 220
      → IsSent name
      → android.read_string_array p ≡ some (some (written name) ∷ some short ∷ some numeric ∷ rest)
      → rr.has_result ≡ true
      → on_found android rr 0 p s ≡ (
        some rr,
        record s {
          returned = rr ∷ s.returned;
          events =
              result rr.serial (android.string_array (present_operator name short numeric rest))
              ∷ s.events;
        },
      )
  unfolding on_found on_read read_case read_answer
  on_found-operator rr name short numeric rest p s distinct asks other sent reads asked =
      rw (converted-other android rr (λ e. other (sym asks ∙ e))) (
        rw (asks) (
          rw (find_case-cases_operator android distinct) (
            rw (reads) (
              rw (response_operator_lem android.names look_up replaces name short numeric rest sent)
                (rw (asked) refl)))))

  -- When the modem answers the question for the operator with success, with a name that comes as
  -- it is or as "uCs2" and the bytes of its UTF-16 in hexadecimal, with the two other strings not
  -- null, and where the look-up of a number that is not null gives a name that is not null: the
  -- request is given back, and who asked gets the strings, with the name that was sent, or, when
  -- that is empty or the operator's number, with the name that is looked up by the number as both
  -- names. The case labels have to be distinct, and the question's number must not be 220.
  pub operator_answered :
      (rr : Pending) (left : List Pending) (name : Sent) (short numeric : Text)
      (rest : List (Option Text)) (p : Parcel) (s : Phone Object)
      → AreDistinct android
      → rr.request ≡ android.code_of operator
      → android.code_of operator ≢ 220
      → IsSent name
      → android.read_string_array (android.read_int (android.read_int p).1).1
        ≡ some (some (written name) ∷ some short ∷ some numeric ∷ rest)
      → rr.has_result ≡ true
      → android.find_and_remove (android.read_int p).0 s.pending ≡ some (rr, left)
      → (android.read_int (android.read_int p).1).0 ≡ 0
      → process_solicited android p s ≡ (
        some rr,
        record s {
          pending = left;
          returned = rr ∷ s.returned;
          events =
              result rr.serial (android.string_array (present_operator name short numeric rest))
              ∷ s.events;
        },
      )
  unfolding process_solicited respond
  operator_answered rr left name short numeric rest p s distinct asks other sent reads asked found
        success =
      rw (found, success)
        (on_found-operator rr name short numeric rest (android.read_int (android.read_int p).1).1
          (record s { pending = left }) distinct asks other sent reads asked)
