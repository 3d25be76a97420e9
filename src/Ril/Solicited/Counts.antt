-- ===== src/Ril/Solicited/Counts.antt =====
-- How often `processSolicited` of MediaTekRIL.java gives a request back and answers it.
use android_device_gionee_p.Common.{ℕ, ◌+◌, ◌≤◌, ◌≡◌, List, [], ◌∷◌, some, ◌==◌, if◌then◌else◌}
use android_device_gionee_p.Ril.Solicited.{
  Pending, Told, Phone, Android, serial_of, process_solicited,
}

abbrev pub one_if : ℕ → ℕ → ℕ
one_if n m = if m == n then 1 else 0

-- How often a serial stands in a list: of requests, of those that have to be answered, and of
-- answers.
abbrev pub requests : ℕ → List Pending → ℕ
requests n [] = 0
requests n (rr ∷ rest) = one_if n rr.serial + requests n rest

abbrev pub owed : ℕ → List Pending → ℕ
owed n [] = 0
owed n (rr ∷ rest) = (if rr.has_result then one_if n rr.serial else 0) + owed n rest

abbrev pub answers : {Object : Type 0} → ℕ → List (Told Object) → ℕ
answers n [] = 0
answers n (e ∷ rest) = one_if n (serial_of e) + answers n rest

-- The requests with a serial that wait or were given back.
abbrev pub held : {Object : Type 0} → ℕ → Phone Object → ℕ
held n s = requests n s.pending + requests n s.returned

-- Requests that wait and requests that were given back have serials of their own; none has two
-- answers, nor one before it is given back; and one that was given back, and has to be answered,
-- was answered.
pub record IsAccounted {Object : Type 0} (s : Phone Object) : Type 0 where
  pub once : (n : ℕ) → requests n s.pending + requests n s.returned ≤ 1
  pub answered_back : (n : ℕ) → answers n s.events ≤ requests n s.returned
  pub all_answered : (n : ℕ) → owed n s.returned ≤ answers n s.events

-- The documented behaviour of `findAndRemoveRequestFromList`: the request has the serial, and is
-- taken from the list.
pub record IsFinding {Parcel Object : Type 0} (android : Android Parcel Object) : Type 0 where
  pub found :
      (n : ℕ) (ps : List Pending) (rr : Pending) (left : List Pending)
      → android.find_and_remove n ps ≡ some (rr, left)
      → (rr.serial ≡ n) × ((m : ℕ) → requests m ps ≡ one_if m rr.serial + requests m left)

-- A request that gets a new serial is taken on, or an answer of the modem comes.
pub data Step {Parcel Object : Type 0} (android : Android Parcel Object) (s : Phone Object)
    : Phone Object → Type 0 where
  take_on :
      (rr : Pending) → held rr.serial s ≡ 0 → Step android s (record s { pending = rr ∷ s.pending })
  answer : (p : Parcel) → Step android s (process_solicited android p s).1

pub data Reach {Parcel Object : Type 0} (android : Android Parcel Object) (s : Phone Object)
    : Phone Object → Type 0 where
  here : Reach android s s
  next : {t u : Phone Object} → Reach android s t → Step android t u → Reach android s u
