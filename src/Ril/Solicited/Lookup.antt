-- ===== src/Ril/Solicited/Lookup.antt =====
-- The cases of `processSolicited` of MediaTekRIL.java, for a request that is or is not among them.
use android_device_gionee_p.Common.{
  ℕ, ◌≤◌, ◌<◌, ◌≡◌, ◌≢◌, refl, ◌∙◌, ap, List, [], ◌∷◌, ◌++◌, Bool, true, false, ◌&&◌, Option, none,
  some, not, if◌then◌else◌, ◌==◌, ==_iff, Bool-cases, inl, inr, arith,
}
use android_device_gionee_p.Format.{codes}
use android_device_gionee_p.Wifi.Strings.{starts_with}
use android_device_gionee_p.Ril.{find_case}
use android_device_gionee_p.Ril.Cases.{
  RequestName, operator, baseband_version, Response, operator_strings, first_cases, later_cases,
  numbered_cases,
}
use android_device_gionee_p.Ril.Solicited.{Pending, Android, with_codes, cases, converted}

differ-== : (a b : ℕ) → a ≢ b → (a == b) ≡ false
differ-== a b h = elim (Bool-cases (a == b)) [ inl e ↦ absurd (h ((==_iff a b).0 e)) | inr e ↦ e ]

equal-== : (a b : ℕ) → a ≡ b → (a == b) ≡ true
equal-== a b e = (==_iff a b).1 e

if-skips :
    (b : Bool) (r : Response) (x y z : Option Response)
    → (if b then some r else x) ≡ none
    → (x ≡ none → z ≡ y)
    → (if b then some r else z) ≡ y
if-skips true r x y z h k = cc
if-skips false r x y z h k = k h

find_case-behind :
    (code : ℕ) (before after : List (ℕ × Response))
    → find_case code before ≡ none
    → find_case code (before ++ after) ≡ find_case code after
unfolding find_case
find_case-behind code [] after h = refl
find_case-behind code ((label, r) ∷ before) after h =
    if-skips (code == label) r (find_case code before) (find_case code after)
      (find_case code (before ++ after)) h (find_case-behind code before after)

-- No name of the list has the code.
abbrev Lacks : (RequestName → ℕ) → ℕ → List (RequestName × Response) → Type 0
Lacks code_of code [] = Unit {0}
Lacks code_of code ((name, r) ∷ rest) = (code ≢ code_of name) × Lacks code_of code rest

find_case-Lacks :
    (code_of : RequestName → ℕ) (code : ℕ) (entries : List (RequestName × Response))
    → Lacks code_of code entries
    → find_case code (with_codes code_of entries) ≡ none
unfolding find_case
find_case-Lacks code_of code [] h = refl
find_case-Lacks code_of code ((name, r) ∷ rest) (h, hs) =
    rw (differ-== code (code_of name) h) (find_case-Lacks code_of code rest hs)

is_operator : RequestName → Bool
is_operator operator = true
is_operator _ = false

not_and : (p q : Bool) → (not p && q) ≡ true → (p ≡ false) × (q ≡ true)
not_and true q h = cc
not_and false q h = (refl, h)

none_is_operator : List (RequestName × Response) → Bool
none_is_operator [] = true
none_is_operator ((name, r) ∷ rest) = not (is_operator name) && none_is_operator rest

module _ {Parcel Object : Type 0} (android : Android Parcel Object) where
  -- Android's own requests have numbers below those that MTK adds.
  abbrev pub AreLow : Type 0
  AreLow = (name : RequestName) → android.code_of name < 2000

  -- The compiler refuses two cases with one number.
  abbrev pub AreDistinct : Type 0
  AreDistinct =
      (name other : RequestName) → android.code_of name ≡ android.code_of other → name ≡ other

  Lacks-low :
      (code : ℕ) (entries : List (RequestName × Response))
      → AreLow
      → 2000 ≤ code
      → Lacks android.code_of code entries
  Lacks-low code [] low h = tt
  Lacks-low code ((name, r) ∷ rest) low h =
      (λ e. let no_way : ⊥ = omega (arith, low name) in no_way, Lacks-low code rest low h)

  find_case-numbered : (code : ℕ) → 2000 ≤ code → find_case code numbered_cases ≡ none
  unfolding find_case
  find_case-numbered code h = ground arith

  pub find_case-cases-none :
      (code : ℕ) → AreLow → 2000 ≤ code → find_case code (cases android) ≡ none
  unfolding cases
  find_case-cases-none code low h =
      find_case-behind code _ _
        (find_case-Lacks android.code_of code first_cases (Lacks-low code first_cases low h))
      ∙ find_case-behind code _ _
          (find_case-Lacks android.code_of code later_cases (Lacks-low code later_cases low h))
      ∙ find_case-numbered code h

  pub converted-other : (rr : Pending) → rr.request ≢ 220 → converted android rr ≡ rr
  converted-other rr h =
      rw (differ-== rr.request 220 h) (go (starts_with (codes "e73") android.device))
    where
      go :
          (b : Bool)
          → (if b && false then record rr { request = android.code_of baseband_version } else rr)
            ≡ rr
      go true = refl
      go false = refl

  Lacks-operator :
      (entries : List (RequestName × Response))
      → AreDistinct
      → none_is_operator entries ≡ true
      → Lacks android.code_of (android.code_of operator) entries
  unfolding none_is_operator is_operator
  Lacks-operator [] distinct h = tt
  Lacks-operator ((name, r) ∷ rest) distinct h =
      let (other, others) = not_and (is_operator name) (none_is_operator rest) h in
      (
        λ e. let same = ap is_operator (distinct operator name e) in cc,
        Lacks-operator rest distinct others,
      )

  pub find_case-cases_operator :
      AreDistinct → find_case (android.code_of operator) (cases android) ≡ some operator_strings
  unfolding cases find_case is_operator none_is_operator
  find_case-cases_operator distinct =
      find_case-behind (android.code_of operator) (with_codes android.code_of first_cases)
        (with_codes android.code_of later_cases ++ numbered_cases)
        (find_case-Lacks android.code_of (android.code_of operator) first_cases
          (Lacks-operator first_cases distinct refl))
      ∙ rw (equal-== (android.code_of operator) (android.code_of operator) refl) refl
