-- ===== src/Ril/Solicited/Exceptions.antt =====
-- The answers to the requests that MediaTekRIL.java itself adds.
use android_device_gionee_p.Common.{
  ℕ, ◌≤◌, ◌≡◌, refl, sym, ap, ◌∙◌, List, [], ◌∷◌, ◌++◌, Bool, true, false, Option, some, length,
  if◌then◌else◌, arith, not,
}
use android_device_gionee_p.Common.Int.{ℤ}
use android_device_gionee_p.Ril.{Request, Ril, send}
use android_device_gionee_p.Ril.Commands.{is_second_sim, power_request, set_radio_power}
use android_device_gionee_p.Ril.Solicited.{
  Pending, exception, Phone, Android, on_read, read_case, on_found, respond, process_solicited,
}
use android_device_gionee_p.Ril.Solicited.Lookup.{AreLow, find_case-cases-none, converted-other}

-- What is sent is the request for the power.
set_radio_power-sent :
    {Parcel : Type 0} (allow : Bool) (instance_id : Option ℤ) (on : Bool) (r : Ril Parcel)
    (req : Request)
    → set_radio_power allow instance_id on r ≡ send req r
    → req.request ≡ 2012
unfolding set_radio_power
set_radio_power-sent allow instance_id on r req h = go (not allow) (is_second_sim instance_id) h
  where
    longer : ◌≡◌ {A = List Request} r.sent (req ∷ r.sent) → req.request ≡ 2012
    longer e = let size = ap length e in absurd (let no_way : ⊥ = omega arith in no_way)

    first : List Request → ℕ
    first [] = 0
    first (q ∷ rest) = q.request

    go :
        (b c : Bool)
        → (if b then r else if c then r else send (power_request on) r) ≡ send req r
        → req.request ≡ 2012
    go true c e = longer (ap (λ s. s.sent) e)
    go false true e = longer (ap (λ s. s.sent) e)
    go false false e = sym (ap (λ s. first s.sent) e)

module _ {Parcel Object : Type 0} (android : Android Parcel Object) where
  on_found-mtk :
      (rr : Pending) (p : Parcel) (s : Phone Object)
      → AreLow android
      → 2000 ≤ rr.request
      → on_found android rr 0 p s ≡ (
        some rr,
        record s {
          returned = rr ∷ s.returned;
          events = (if rr.has_result then exception rr.serial ∷ [] else []) ++ s.events;
        },
      )
  unfolding on_found on_read read_case
  on_found-mtk rr p s low h =
      rw (converted-other android rr (λ e. let no_way : ⊥ = omega arith in no_way))
        (rw (find_case-cases-none android rr.request low h) refl)

  -- Where Android's own requests have numbers below 2000: when the modem answers the request for
  -- the radio's power, that `setRadioPower` sent, with success, the request is given back, and
  -- who asked is told of an exception.
  pub radio_power_excepted :
      (allow : Bool) (instance_id : Option ℤ) (on : Bool) (r : Ril Parcel) (req : Request)
      (rr : Pending) (left : List Pending) (p : Parcel) (s : Phone Object)
      → AreLow android
      → set_radio_power allow instance_id on r ≡ send req r
      → rr.request ≡ req.request
      → rr.has_result ≡ true
      → android.find_and_remove (android.read_int p).0 s.pending ≡ some (rr, left)
      → (android.read_int (android.read_int p).1).0 ≡ 0
      → process_solicited android p s ≡ (
        some rr,
        record s {
          pending = left;
          returned = rr ∷ s.returned;
          events = exception rr.serial ∷ s.events;
        },
      )
  unfolding process_solicited respond
  radio_power_excepted allow instance_id on r req rr left p s low sent same asked found success =
      rw (found, success)
        (on_found-mtk rr (android.read_int (android.read_int p).1).1 (record s { pending = left })
            low (let e = set_radio_power-sent allow instance_id on r req sent in omega arith)
          ∙ rw asked refl)
