-- ===== src/Ril/Solicited/Accounts.antt =====
-- Every request that MediaTekRIL.java takes on is given back at most once, with at most one answer.
use android_device_gionee_p.Common.{
  ℕ, ◌+◌, ◌≤◌, ◌≡◌, ◌⊎◌, inl, inr, Bool-cases, ==_iff, refl, ap, List, ◌∷◌, Option, none, some,
  ◌==◌, arith,
}
use android_device_gionee_p.Ril.Solicited.{Pending, Phone, Android, respond, process_solicited}
use android_device_gionee_p.Ril.Solicited.Counts.{
  one_if, requests, held, IsAccounted, IsFinding, Step, take_on, answer, Reach, here, next,
}
use android_device_gionee_p.Ril.Solicited.Given.{GaveBack, on_found-GaveBack}

record Advances {Object : Type 0} (s t : Phone Object) : Type 0 where
  accounted : IsAccounted s → IsAccounted t
  kept_all : (n : ℕ) → held n s ≤ held n t

one_if-cases : (n m : ℕ) → (one_if n m ≡ 0) ⊎ ((one_if n m ≡ 1) × (m ≡ n))
one_if-cases n m = elim (Bool-cases (m == n)) [
  | inl e ↦ inr (rw e refl, (==_iff m n).0 e)
  | inr e ↦ inl (rw e refl)
]

fresh-once :
    {Object : Type 0} (rr : Pending) (s : Phone Object) (n : ℕ)
    → held rr.serial s ≡ 0
    → held n s ≤ 1
    → one_if n rr.serial + held n s ≤ 1
fresh-once rr s n fresh once = elim (one_if-cases n rr.serial) [
  | inl e ↦ omega arith
  | inr (one, same) ↦ omega (arith, ap (λ (k : ℕ). held k s) same)
]

send-Advances :
    {Object : Type 0} (rr : Pending) (s : Phone Object)
    → held rr.serial s ≡ 0
    → Advances s (record s { pending = rr ∷ s.pending })
send-Advances rr s fresh = record {
  accounted = λ h. record {
    once = λ n. omega (arith, fresh-once rr s n fresh (h.once n));
    answered_back = h.answered_back;
    all_answered = h.all_answered;
  };
  kept_all = λ n. omega arith;
}

GaveBack-Advances :
    {Object : Type 0} (rr : Pending) (left : List Pending) (s t : Phone Object)
    → ((m : ℕ) → requests m s.pending ≡ one_if m rr.serial + requests m left)
    → ((m : ℕ) → GaveBack m rr (record s { pending = left }) t)
    → Advances s t
GaveBack-Advances rr left s t took gave = record {
  accounted = λ h. record {
    once = λ n. omega (arith, h.once n, took n, (gave n).back, ap (requests n) (gave n).waiting);
    answered_back = λ n. omega (arith, h.answered_back n, (gave n).told, (gave n).back);
    all_answered = λ n. omega (arith, h.all_answered n, (gave n).paid, (gave n).kept);
  };
  kept_all = λ n. omega (arith, took n, (gave n).back, ap (requests n) (gave n).waiting);
}

module _ {Parcel Object : Type 0} (android : Android Parcel Object)
    (finding : IsFinding android) where
  respond-Advances :
      (serial error : ℕ) (p : Parcel) (s : Phone Object) (o : Option (Pending × List Pending))
      → android.find_and_remove serial s.pending ≡ o
      → Advances s (respond android o error p s).1
  unfolding respond
  respond-Advances serial error p s none e = record {
    accounted = λ h. h;
    kept_all = λ n. omega arith;
  }
  respond-Advances serial error p s (some (rr, left)) e =
      GaveBack-Advances rr left s _ (finding.found serial s.pending rr left e).1
        (λ m. on_found-GaveBack android m rr error p (record s { pending = left }))

  Step-Advances : {s t : Phone Object} → Step android s t → Advances s t
  unfolding process_solicited
  Step-Advances (take_on rr fresh) = send-Advances rr _ fresh
  Step-Advances {s} (answer p) =
      let (serial, behind) = android.read_int p in
      let (error, body) = android.read_int behind in
      respond-Advances serial error body s (android.find_and_remove serial s.pending) refl

  Reach-Advances : {s t : Phone Object} → Reach android s t → Advances s t
  Reach-Advances here = record { accounted = λ h. h; kept_all = λ n. omega arith }
  Reach-Advances (next r step) =
      let before = Reach-Advances r in
      let after = Step-Advances step in
      record {
        accounted = λ h. after.accounted (before.accounted h);
        kept_all = λ n. omega (arith, before.kept_all n, after.kept_all n);
      }

  -- Whatever requests with serials of their own are sent, and whatever answers come, known or
  -- not, readable or not: each request still waits or was given back, no request is given back
  -- twice, nor while it waits, none is answered twice, nor before it is given back, and one that
  -- was given back, and has somewhere to answer to, was answered.
  pub Reach-IsAccounted :
      {s t : Phone Object} (n : ℕ)
      → IsAccounted s
      → Reach android s t
      → IsAccounted t × (held n s ≤ held n t)
  Reach-IsAccounted n h r = ((Reach-Advances r).accounted h, (Reach-Advances r).kept_all n)
