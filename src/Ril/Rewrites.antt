-- ===== src/Ril/Rewrites.antt =====
-- What `processUnsolicited` of MediaTekRIL.java hands to Android's RIL class, and what it sends.
use android_device_gionee_p.Common.{
  ℕ, ◌≡◌, refl, sym, ◌∙◌, ap, List, [], ◌∷◌, ◌++◌, Bool, true, false, Option, none, some, map, ◌==◌,
  if◌then◌else◌,
}
use android_device_gionee_p.Format.{Text}
use android_device_gionee_p.Ril.{
  ParcelClass, Superclass, Request, Ril, Reader, readers, replacements, find_case, read_response,
  rewrite, known, dispatch, process_unsolicited, read_on, strings, ints, void, crss, etws,
}
use android_device_gionee_p.Ril.Outcome.{
  Contents, put, IsParcel, handed, view, view_of, with_requests, outcome_read, outcome, sending,
  before-sends, requests_of,
}

module _ {Parcel : Type 0} (cls : ParcelClass Parcel) (sup : Superclass Parcel)
    (contents : Parcel → Contents) where
  module _ (laws : IsParcel cls sup contents) where
    same_parcel :
        (p q : Parcel) (ret : List Text)
        → ◌≡◌ {A = Option (List Text × Parcel)} (some ([], p)) (some (ret, q))
        → (contents q).int_at ≡ (contents p).int_at
    same_parcel p q ret e =
        let same : p ≡ q = cc in ap (λ (u : Parcel). (contents u).int_at) (sym same)

    read_ints :
        (p q : Parcel) (ret : List Text) (o : Option Parcel)
        → sup.response_ints p ≡ o
        → ◌≡◌ {A = Option (List Text × Parcel)}
            (elim o [ none ↦ none | some u ↦ some ([], u) ])
            (some (ret, q))
        → (contents q).int_at ≡ (contents p).int_at
    read_ints p q ret none e h = cc
    read_ints p q ret (some u) e h = same_parcel u q ret h ∙ laws.reading_ints p u e

    read_response-ints :
        (reader : Reader) (p q : Parcel) (ret : List Text)
        → read_response cls sup reader p ≡ some (ret, q)
        → (contents q).int_at ≡ (contents p).int_at
    read_response-ints strings p q ret e = laws.reading_strings p q ret e
    read_response-ints ints p q ret e = read_ints p q ret (sup.response_ints p) refl e
    read_response-ints void p q ret e = same_parcel p q ret e
    read_response-ints crss p q ret e = same_parcel p q ret e
    read_response-ints etws p q ret e = same_parcel p q ret e

    read_on-ints :
        (code : ℕ) (p : Parcel) → (contents (read_on cls sup code p)).int_at ≡ (contents p).int_at
    read_on-ints code p = go (code == sup.radio_state_changed)
      where
        go :
            (b : Bool)
            → (contents (if b then (cls.read_int p).1 else p)).int_at ≡ (contents p).int_at
        go true = laws.reading p
        go false = refl

    -- A parcel that was read, with another `int` written at its first place.
    rewritten :
        (p q : Parcel) (new : ℕ)
        → (contents q).int_at ≡ (contents p).int_at
        → contents (
            cls.set_data_position
              (cls.data_position p)
              (cls.write_int new (cls.set_data_position (cls.data_position p) q)))
          ≡ record (contents p) { int_at = put (contents p).place new (contents p).int_at }
    rewritten p q new same =
        let n = (contents p).place in
        let moved = cls.set_data_position (cls.data_position p) q in
        let moved_to : contents moved ≡ record (contents q) { place = n } =
          laws.set_position (cls.data_position p) q
          ∙ ap (λ (k : ℕ). record (contents q) { place = k }) (laws.position p) in
        let written = cls.write_int new moved in
        let ints_now =
          laws.writing new moved
          ∙ ap (λ (c : Contents). put c.place new c.int_at) moved_to
          ∙ ap (λ (f : ℕ → ℕ). put n new f) same in
        laws.set_position (cls.data_position p) written
        ∙ ap (λ (k : ℕ). record (contents written) { place = k }) (laws.position p)
        ∙ ap (λ (f : ℕ → ℕ). record (contents p) { int_at = f }) ints_now

    rewrite-hands :
        (o : Option ℕ) (p q : Parcel) (r : Ril Parcel)
        → (contents q).int_at ≡ (contents p).int_at
        → view contents (rewrite cls sup (cls.data_position p) o q r)
          ≡ (r.sent, handed o (contents p) ++ map contents r.forwarded)
    unfolding rewrite
    rewrite-hands none p q r same = refl
    rewrite-hands (some new) p q r same =
        ap (λ (c : Contents). (r.sent, c ∷ map contents r.forwarded)) (rewritten p q new same)

    known-outcome :
        (code : ℕ) (o : Option (List Text × Parcel)) (p : Parcel) (r : Ril Parcel)
        → ((ret : List Text) (q : Parcel)
            → o ≡ some (ret, q)
            → (contents q).int_at ≡ (contents p).int_at)
        → view_of contents (known cls sup (cls.data_position p) code o r)
          ≡ outcome_read cls sup contents code o (contents p) r
    unfolding known
    known-outcome code none p r reads = refl
    known-outcome code (some (ret, q)) p r reads =
        rw (before-sends cls sup code ret q r, known)
          (seen (requests_of sup code ret (cls.read_int q).0))
      where
        seen :
            (o : Option (List Request))
            → view_of contents (elim (sending o r) [
              | none ↦ none
              | some s ↦ some (
                  rewrite cls sup
                    (cls.data_position p)
                    (find_case code (replacements sup))
                    (read_on cls sup code q)
                    s)
            ])
              ≡ with_requests contents o (handed (find_case code (replacements sup)) (contents p)) r
        seen none = refl
        seen (some rs) = ap some (
            rewrite-hands (find_case code (replacements sup)) p (read_on cls sup code q)
              (record r { sent = rs ++ r.sent }) (read_on-ints code q ∙ reads ret q refl))

    dispatch-outcome :
        (o : Option Reader) (p : Parcel) (r : Ril Parcel)
        → view_of contents
            (dispatch cls sup (cls.data_position p) (cls.read_int p).0 o (cls.read_int p).1 r)
          ≡ outcome cls sup contents o p r
    unfolding dispatch
    dispatch-outcome none p r =
        ap (λ (c : Contents). some (r.sent, c ∷ map contents r.forwarded))
          (laws.set_position (cls.data_position p) (cls.read_int p).1
            ∙ ap (λ (k : ℕ). record (contents (cls.read_int p).1) { place = k }) (laws.position p)
            ∙ ap (λ (f : ℕ → ℕ). record (contents p) { int_at = f }) (laws.reading p))
    dispatch-outcome (some reader) p r =
        known-outcome (cls.read_int p).0 (read_response cls sup reader (cls.read_int p).1) p r
          (λ ret q e. read_response-ints reader (cls.read_int p).1 q ret e ∙ laws.reading p)

    -- An unsolicited response, over parcels as they are documented. A code that the first
    -- `switch` does not have reaches Android's class as it came. Of the others, those that stand
    -- for one of Android's codes reach it in a parcel with the same place to read from, with that
    -- code there and every other `int` as it was, and the rest do not reach it. Nothing is sent
    -- but the indication of an incoming call and, when the radio's state is neither 0 nor 1, the
    -- two settings for GPRS. Where the response cannot be read, or an incoming call's numbers
    -- cannot, there is an exception.
    pub process_unsolicited_lem :
        (p : Parcel) (r : Ril Parcel)
        → view_of contents (process_unsolicited cls sup p r)
          ≡ outcome cls sup contents
              (find_case ((contents p).int_at (contents p).place) (readers sup))
              p
              r
    unfolding process_unsolicited
    process_unsolicited_lem p r =
        dispatch-outcome (find_case (cls.read_int p).0 (readers sup)) p r
        ∙ ap (λ (code : ℕ). outcome cls sup contents (find_case code (readers sup)) p r)
            (laws.reads_int p)
