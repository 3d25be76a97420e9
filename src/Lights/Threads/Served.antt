-- ===== src/Lights/Threads/Served.antt =====
-- In which order the calls of liblight/lights.c are served.
use native.Mathlib.Decide.{ℕ_discrete}
use android_device_gionee_p.Common.{
  ℕ, ◌≡◌, refl, sym, ◌∙◌, ap, List, [], ◌∷◌, ◌++◌, true, false, some, get_elem?, set,
  get_elem?-set_self, get_elem?-set_ne, append_assoc, ◌==◌, if◌then◌else◌, arith,
}
use android_device_gionee_p.Lights.Code.{Code, call_code, advance}
use android_device_gionee_p.Lights.Threads.{
  Call, Thread, idle, inside, System, Step, enter, access, leave, Reach, here, next, calls_of, left,
}

calls_of-snoc :
    (served : List (ℕ × Call)) (i : ℕ) (call : Call) (k : ℕ)
    → calls_of k (served ++ (i, call) ∷ [])
      ≡ calls_of k served ++ (if i == k then call ∷ [] else [])
calls_of-snoc [] i call k = ground arith
calls_of-snoc ((j, other) ∷ rest) i call k = ground (arith, calls_of-snoc rest i call k)

left-set_same :
    (threads : List Thread) (i k : ℕ) (t u : Thread)
    → get_elem? threads i ≡ some u
    → left (some t) ≡ left (some u)
    → left (get_elem? (set threads i t) k) ≡ left (get_elem? threads k)
left-set_same threads i k t u at same = elim (ℕ_discrete i k) [
  | yes e ↦
      ap (λ (n : ℕ). left (get_elem? (set threads i t) n)) (sym e)
      ∙ ap left (get_elem?-set_self threads i t at)
      ∙ same
      ∙ ap left (sym at)
      ∙ ap (λ (n : ℕ). left (get_elem? threads n)) e
  | no ne ↦ ap left (get_elem?-set_ne threads i k t ne)
]

left-set_inside :
    (threads : List Thread) (i k : ℕ) (call : Call) (calls : List Call) (c : Code)
    → get_elem? threads i ≡ some (idle (call ∷ calls))
    → (if i == k then call ∷ [] else []) ++ left (get_elem? (set threads i (inside c calls)) k)
      ≡ left (get_elem? threads k)
left-set_inside threads i k call calls c at = elim (ℕ_discrete i k) [
  | yes e ↦
      let same : (i == k) ≡ true = ground arith in
      let now =
        ap (λ (n : ℕ). get_elem? (set threads i (inside c calls)) n) (sym e)
        ∙ get_elem?-set_self threads i (inside c calls) at in
      let before = ap (λ (n : ℕ). get_elem? threads n) (sym e) ∙ at in rw (same, now, before) refl
  | no ne ↦
      let other : (i == k) ≡ false = ground arith in
      rw (other, get_elem?-set_ne threads i k (inside c calls) ne) refl
]

-- What thread `k` has been served, with what it has still to begin.
abbrev pub plan : System → ℕ → List Call
plan s k = calls_of k s.served ++ left (get_elem? s.threads k)

Step-plan : {s t : System} (k : ℕ) → Step s t → plan t k ≡ plan s k
Step-plan {s} k (enter i light state calls at vacant) =
    ap
      (λ (served : List Call).
        served ++ left (get_elem? (set s.threads i (inside (call_code light state) calls)) k))
      (calls_of-snoc s.served i (light, state) k)
    ∙ append_assoc (calls_of k s.served) _ _
    ∙ ap (λ (rest : List Call). calls_of k s.served ++ rest)
        (left-set_inside s.threads i k (light, state) calls (call_code light state) at)
Step-plan {s} k (access i c calls at pending) =
    ap (λ (rest : List Call). calls_of k s.served ++ rest)
      (left-set_same s.threads i k (inside (advance c s.lights).0 calls) (inside c calls) at refl)
Step-plan {s} k (leave i c calls at over) =
    ap (λ (rest : List Call). calls_of k s.served ++ rest)
      (left-set_same s.threads i k (idle calls) (inside c calls) at refl)

-- Whatever the threads do between two states: what thread `k` has been served, followed by what
-- it has still to begin, is the same list of calls before and after. So no call is lost, made
-- twice or made out of its thread's order.
pub Reach-plan : {s t : System} → (k : ℕ) → Reach s t → plan t k ≡ plan s k
Reach-plan k here = refl
Reach-plan k (next r step) = Step-plan k step ∙ Reach-plan k r
