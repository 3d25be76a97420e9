-- ===== src/Ril/Solicited/Given.antt =====
-- What `processSolicited` of MediaTekRIL.java does to the counts when it finds a request.
use android_device_gionee_p.Common.{
  ℕ, ◌+◌, ◌≤◌, ◌≡◌, refl, ap, [], ◌∷◌, Bool, true, false, Option, none, some, ltb, ◌==◌, ◌||◌, ◌&&◌,
  if◌then◌else◌, arith,
}
use android_device_gionee_p.Format.{Text, codes}
use android_device_gionee_p.Wifi.Strings.{starts_with}
use android_device_gionee_p.Ril.Cases.{baseband_version}
use android_device_gionee_p.Ril.{find_case}
use android_device_gionee_p.Ril.Solicited.{
  cases, read_case, Pending, Told, result, exception, on_error, Phone, Android, serial_of,
  converted, give_back, conclude, on_read, on_found,
}
use android_device_gionee_p.Ril.Solicited.Counts.{one_if, requests, owed, answers}

-- What giving `rr` back does to the counts of the serial `n`.
pub record GaveBack {Object : Type 0} (n : ℕ) (rr : Pending) (s t : Phone Object) : Type 0 where
  pub waiting : t.pending ≡ s.pending
  pub back : requests n t.returned ≡ one_if n rr.serial + requests n s.returned
  pub told : answers n t.events ≤ one_if n rr.serial + answers n s.events
  pub kept : answers n s.events ≤ answers n t.events
  pub paid : owed n t.returned + answers n s.events ≤ owed n s.returned + answers n t.events

module _ {Object : Type 0} (n : ℕ) (s : Phone Object) where
  told-GaveBack :
      (rr : Pending) (e : Told Object)
      → serial_of e ≡ rr.serial
      → GaveBack n rr s (give_back rr (e ∷ []) s).1
  told-GaveBack rr e same = record {
    waiting = refl;
    back = refl;
    told = omega (arith, ap (one_if n) same);
    kept = omega arith;
    paid = ground (arith, ap (one_if n) same);
  }

  untold-GaveBack : (rr : Pending) → rr.has_result ≡ false → GaveBack n rr s (give_back rr [] s).1
  untold-GaveBack rr no_result = record {
    waiting = refl;
    back = refl;
    told = omega arith;
    kept = omega arith;
    paid = rw no_result (omega arith);
  }

  if_told-GaveBack :
      (rr : Pending) (e : Told Object) (b : Bool)
      → rr.has_result ≡ b
      → serial_of e ≡ rr.serial
      → GaveBack n rr s (give_back rr (if b then e ∷ [] else []) s).1
  if_told-GaveBack rr e true has same = told-GaveBack rr e same
  if_told-GaveBack rr e false has same = untold-GaveBack rr has

  conclude-GaveBack :
      (rr : Pending) (error : ℕ) (ret : Object) → GaveBack n rr s (conclude rr error ret s).1
  conclude-GaveBack rr error ret = go (error == 0)
    where
      go :
          (b : Bool)
          → GaveBack n rr s
              (if b
                then give_back rr (if rr.has_result then result rr.serial ret ∷ [] else []) s
                else give_back rr (on_error rr.serial error ret ∷ []) s).1
      go true = if_told-GaveBack rr (result rr.serial ret) rr.has_result refl refl
      go false = told-GaveBack rr (on_error rr.serial error ret) refl

module _ {Parcel Object : Type 0} (android : Android Parcel Object) (n : ℕ) where
  with_lac :
      {rr : Pending} {s t : Phone Object} (lac : Text)
      → GaveBack n rr (record s { cops_lac = lac }) t
      → GaveBack n rr s t
  with_lac lac g = record {
    waiting = g.waiting;
    back = g.back;
    told = g.told;
    kept = g.kept;
    paid = g.paid;
  }

  on_read-GaveBack :
      (rr : Pending) (error : ℕ) (o : Option Object) (lac : Text) (s : Phone Object)
      → GaveBack n rr s (on_read android rr error (o, lac) s).1
  unfolding on_read
  on_read-GaveBack rr error none lac s = with_lac lac (
      if_told-GaveBack n (record s { cops_lac = lac }) rr (exception rr.serial) rr.has_result refl
        refl)
  on_read-GaveBack rr error (some ret) lac s =
      with_lac lac (conclude-GaveBack n (record s { cops_lac = lac }) rr error ret)

  -- A request whose number is replaced is the same request.
  converted-GaveBack :
      (rr : Pending) (s t : Phone Object)
      → GaveBack n (converted android rr) s t
      → GaveBack n rr s t
  unfolding starts_with
  converted-GaveBack rr s t h = go (starts_with (codes "e73") android.device && rr.request == 220) h
    where
      go :
          (b : Bool)
          → GaveBack n
              (if b then record rr { request = android.code_of baseband_version } else rr)
              s
              t
          → GaveBack n rr s t
      go true g = record {
        waiting = g.waiting;
        back = g.back;
        told = g.told;
        kept = g.kept;
        paid = g.paid;
      }
      go false g = g

  pub on_found-GaveBack :
      (rr : Pending) (error : ℕ) (p : Parcel) (s : Phone Object)
      → GaveBack n rr s (on_found android rr error p s).1
  unfolding on_found
  on_found-GaveBack rr error p s =
      go (error == 0 || ltb 0 (android.data_avail p))
        (read_case android (find_case (converted android rr).request (cases android)) p s.cops_lac)
    where
      go :
          (b : Bool) (a : Option Object × Text)
          → GaveBack n rr s
              (if b
                then on_read android (converted android rr) error a s
                else conclude rr error android.null_object s).1
      go true (o, lac) =
          converted-GaveBack rr s _ (on_read-GaveBack (converted android rr) error o lac s)
      go false a = conclude-GaveBack n s rr error android.null_object
