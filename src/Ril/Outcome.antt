-- ===== src/Ril/Outcome.antt =====
-- `processUnsolicited` of MediaTekRIL.java: its requests, and what can be seen of the parcels it
-- hands on.
use android_device_gionee_p.Common.{
  ℕ, ◌≡◌, refl, ◌∙◌, ap, List, [], ◌∷◌, ◌++◌, Bool, true, false, Option, none, some, map, leb, ◌==◌,
  if◌then◌else◌,
}
use android_device_gionee_p.Common.Int.{pos}
use android_device_gionee_p.Format.{Text}
use android_device_gionee_p.Ril.{
  ParcelClass, Superclass, Request, Ril, Reader, incoming_call_indication, replacements, find_case,
  parse_at, call_indication, set_call_indication, set_radio_state_from_ril_int, read_response,
  before_rewrite,
}

-- The requests that a response makes, newest first: for a call, the indication of it, if its
-- numbers can be read; for a radio that is on, the two settings for GPRS.
abbrev pub radio_requests : Bool → List Request
radio_requests true = []
radio_requests false =
    record { request = 2016; ints = pos 1 ∷ pos 1 ∷ []; strings = [] }
    ∷ record { request = 2017; ints = pos 1 ∷ pos 1 ∷ []; strings = [] }
    ∷ []

abbrev pub one_request : Option Request → Option (List Request)
one_request none = none
one_request (some rr) = some (rr ∷ [])

-- What can be seen of a parcel: the `int` at each place, and the place that is read next.
pub record Contents : Type 0 where
  pub int_at : ℕ → ℕ
  pub place : ℕ

abbrev pub put : ℕ → ℕ → (ℕ → ℕ) → ℕ → ℕ
put i v at j = if i == j then v else at j

-- The documented behaviour of a parcel: reading moves the place only, writing changes the `int`
-- at the place, and a place can be set. The superclass's functions only read.
pub record IsParcel {Parcel : Type 0} (cls : ParcelClass Parcel) (sup : Superclass Parcel)
    (contents : Parcel → Contents) : Type 0 where
  pub position : (p : Parcel) → cls.data_position p ≡ (contents p).place
  pub set_position :
      (n : ℕ) (p : Parcel)
      → contents (cls.set_data_position n p) ≡ record (contents p) { place = n }
  pub reads_int : (p : Parcel) → (cls.read_int p).0 ≡ (contents p).int_at (contents p).place
  pub reading : (p : Parcel) → (contents (cls.read_int p).1).int_at ≡ (contents p).int_at
  pub writing :
      (v : ℕ) (p : Parcel)
      → (contents (cls.write_int v p)).int_at ≡ put (contents p).place v (contents p).int_at
  pub reading_strings :
      (p q : Parcel) (ret : List Text)
      → sup.response_strings p ≡ some (ret, q)
      → (contents q).int_at ≡ (contents p).int_at
  pub reading_ints :
      (p q : Parcel) → sup.response_ints p ≡ some q → (contents q).int_at ≡ (contents p).int_at

-- What the superclass gets, when the response stands for one of Android's: the same with another
-- code.
abbrev pub handed : Option ℕ → Contents → List Contents
handed none c = []
handed (some new) c = record c { int_at = put c.place new c.int_at } ∷ []

module _ {Parcel : Type 0} (contents : Parcel → Contents) where
  -- The requests, and what the superclass sees of each parcel.
  abbrev pub view : Ril Parcel → List Request × List Contents
  view r = (r.sent, map contents r.forwarded)

  abbrev pub view_of : Option (Ril Parcel) → Option (List Request × List Contents)
  view_of none = none
  view_of (some r) = some (view r)

  abbrev pub with_requests :
      Option (List Request) → List Contents → Ril Parcel → Option (List Request × List Contents)
  with_requests none cs r = none
  with_requests (some rs) cs r = some (rs ++ r.sent, cs ++ map contents r.forwarded)

module _ {Parcel : Type 0} (sup : Superclass Parcel) where
  abbrev pub requests_of : ℕ → List Text → ℕ → Option (List Request)
  requests_of code ret state =
      if code == incoming_call_indication
      then one_request (call_indication (parse_at ret 0) (parse_at ret 3) (parse_at ret 4))
      else if code == sup.radio_state_changed
      then some (radio_requests (leb state 1))
      else some []

module _ {Parcel : Type 0} (cls : ParcelClass Parcel) (sup : Superclass Parcel)
    (contents : Parcel → Contents) where
  abbrev pub outcome_read :
      ℕ
      → Option (List Text × Parcel)
      → Contents
      → Ril Parcel
      → Option (List Request × List Contents)
  outcome_read code none c r = none
  outcome_read code (some (ret, q)) c r =
      with_requests contents (requests_of sup code ret (cls.read_int q).0)
        (handed (find_case code (replacements sup)) c) r

  abbrev pub outcome : Option Reader → Parcel → Ril Parcel → Option (List Request × List Contents)
  outcome none p r = some (r.sent, contents p ∷ map contents r.forwarded)
  outcome (some reader) p r =
      let (code, q) = cls.read_int p in
      outcome_read code (read_response cls sup reader q) (contents p) r

module _ {Parcel : Type 0} where
  abbrev pub sending : Option (List Request) → Ril Parcel → Option (Ril Parcel)
  sending none r = none
  sending (some rs) r = some (record r { sent = rs ++ r.sent })

  set_call-sends :
      (ret : List Text) (r : Ril Parcel)
      → set_call_indication ret r
        ≡ sending
            (one_request (call_indication (parse_at ret 0) (parse_at ret 3) (parse_at ret 4)))
            r
  unfolding set_call_indication
  set_call-sends ret r = go (call_indication (parse_at ret 0) (parse_at ret 3) (parse_at ret 4)) r
    where
      go :
          (o : Option Request) (s : Ril Parcel)
          → elim o [ none ↦ none | some rr ↦ some (record s { sent = rr ∷ s.sent }) ]
            ≡ sending (one_request o) s
      go none s = refl
      go (some rr) s = refl

  radio-sends :
      (state : ℕ) (r : Ril Parcel)
      → set_radio_state_from_ril_int state r
        ≡ record r { sent = radio_requests (leb state 1) ++ r.sent }
  unfolding set_radio_state_from_ril_int
  radio-sends state r = go (leb state 1) r
    where
      go :
          (b : Bool) (s : Ril Parcel)
          → (if b then s else record s { sent = radio_requests false ++ s.sent })
            ≡ record s { sent = radio_requests b ++ s.sent }
      go true s = refl
      go false s = refl

  if-sending :
      (b : Bool) (o p : Option (List Request)) (r : Ril Parcel)
      → (if b then sending o r else sending p r) ≡ sending (if b then o else p) r
  if-sending true o p r = refl
  if-sending false o p r = refl

module _ {Parcel : Type 0} (cls : ParcelClass Parcel) (sup : Superclass Parcel) where
  pub before-sends :
      (code : ℕ) (ret : List Text) (p : Parcel) (r : Ril Parcel)
      → before_rewrite cls sup code ret p r
        ≡ sending (requests_of sup code ret (cls.read_int p).0) r
  unfolding before_rewrite
  before-sends code ret p r = rw (set_call-sends ret r) (
      rw (radio-sends (cls.read_int p).0 r) (
        ap
          (λ (o : Option (Ril Parcel)).
            if code == incoming_call_indication
            then sending
                (one_request (call_indication (parse_at ret 0) (parse_at ret 3) (parse_at ret 4))) r
            else o)
          (if-sending (code == sup.radio_state_changed)
            (some (radio_requests (leb (cls.read_int p).0 1))) (some []) r)
        ∙ if-sending (code == incoming_call_indication) _ _ r))
