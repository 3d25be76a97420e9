-- ===== src/Wifi/Printer/Laws.antt =====
-- A row of `os_snprintf` calls is one call with the whole text.
use android_device_gionee_p.Common.{
  ℕ, zero, suc, ◌+◌, ◌-◌, ◌<◌, ◌≤◌, ◌≡◌, ◌⊎◌, inl, inr, refl, ◌∙◌, sym, ap, List, [], ◌∷◌, ◌++◌,
  append_assoc, append-nil, leb, ltb, length, take, length-append, take-all, if◌then◌else◌, leb→le,
  le→ltb, false, arith, Bool-cases,
}
use android_device_gionee_p.Format.{Text, stored}
use android_device_gionee_p.Wifi.Printer.{Printed, complete, cut, print, buffer}

-- The texts one behind the other.
abbrev pub joined : List Text → Text
joined [] = []
joined (t ∷ ts) = t ++ joined ts

-- The bytes in front of a position inside the second text.
take-append : (xs ys : Text) (k n : ℕ) → n ≡ length xs + k → take n (xs ++ ys) ≡ xs ++ take k ys
take-append [] ys k n e = let e' : n ≡ k = omega arith in ap (λ (m : ℕ). take m ys) e'
take-append (x ∷ xs) ys k zero e = absurd (omega arith)
take-append (x ∷ xs) ys k (suc n) e = ap (λ (l : Text). x ∷ l) (take-append xs ys k n (omega arith))

-- The bytes in front of a position inside the first text.
take-front : (k : ℕ) (xs ys : Text) → k ≤ length xs → take k (xs ++ ys) ≡ take k xs
take-front zero xs ys h = refl
take-front (suc k) [] ys h = absurd (omega arith)
take-front (suc k) (x ∷ xs) ys h = ap (λ (l : Text). x ∷ l) (take-front k xs ys (omega arith))

stored-cut :
    (buflen : ℕ) (out t rest : Text)
    → length out < buflen
    → buflen - length out ≤ length t
    → out ++ stored (buflen - length out) t ≡ stored buflen (out ++ (t ++ rest))
stored-cut buflen out t rest h full = sym (
    take-append out (t ++ rest) (buflen - length out - 1) (buflen - 1) (omega arith)
    ∙ ap (λ (l : Text). out ++ l) (take-front (buflen - length out - 1) t rest (omega arith)))

-- The result on the way to the end, or 0 on an early return.
abbrev pub total : Printed → ℕ
total (complete out) = length out
total (cut out t) = 0

module _ (buflen : ℕ) where
  longer : (out t : Text) → length t < buflen - length out → length (out ++ t) < buflen
  longer out t h = omega (arith, length-append out t)

  too_long :
      (out t rest : Text)
      → length out < buflen
      → buflen - length out ≤ length t
      → ltb (length (out ++ (t ++ rest))) buflen ≡ false
  too_long out t rest h full =
      le→ltb _ _ (omega (arith, length-append out (t ++ rest), length-append t rest))

  -- The buffer holds what one `snprintf` of the whole text would store.
  pub buffer-print :
      (ts : List Text) (out : Text)
      → length out < buflen
      → buffer buflen (print buflen ts out) ≡ stored buflen (out ++ joined ts)
  unfolding print
  buffer-print [] out h =
      sym (take-all (buflen - 1) (out ++ []) (rw (append-nil out) (omega arith)) ∙ append-nil out)
  buffer-print (t ∷ ts) out h = elim (Bool-cases (leb (buflen - length out) (length t))) [
    | inl full ↦ rw (full, print) (stored-cut buflen out t (joined ts) h (leb→le _ _ full))
    | inr fits ↦
        rw (fits, print)
          (buffer-print ts (out ++ t) (longer out t (ground arith))
            ∙ ap (stored buflen) (append_assoc out t (joined ts)))
  ]

  -- Everything is printed exactly if the whole text is shorter than the buffer.
  pub total-print :
      (ts : List Text) (out : Text)
      → length out < buflen
      → total (print buflen ts out)
        ≡ (if ltb (length (out ++ joined ts)) buflen then length (out ++ joined ts) else 0)
  unfolding print
  total-print [] out h = rw (append-nil out) (ground arith)
  total-print (t ∷ ts) out h = elim (Bool-cases (leb (buflen - length out) (length t))) [
    | inl full ↦ rw (full, print) (rw (too_long out t (joined ts) h (leb→le _ _ full)))
    | inr fits ↦
        rw (fits, print)
          (total-print ts (out ++ t) (longer out t (ground arith))
            ∙ ap (λ (l : Text). if ltb (length l) buflen then length l else 0)
                (append_assoc out t (joined ts)))
  ]

-- What was printed before the end or before an early return.
abbrev pub progress : Printed → ℕ
progress (complete out) = length out
progress (cut out t) = length out

module _ (buflen : ℕ) where
  -- `print` gets through `k` texts, which fit together, and stops at the end or where one more
  -- would not fit.
  abbrev pub Reaches : ℕ → List Text → Text → ℕ → Type 0
  Reaches result ts out k =
      (result ≡ length (out ++ joined (take k ts)))
      × (result < buflen)
      × ((k ≡ length ts) ⊎ (buflen ≤ length (out ++ joined (take (suc k) ts))))

  ends :
      (out t : Text)
      → length out < buflen
      → buflen - length out ≤ length t
      → buflen ≤ length (out ++ (t ++ []))
  ends out t h full = omega (arith, length-append out (t ++ []), length-append t [])

  further :
      (result : ℕ) (t : Text) (ts : List Text) (out : Text) (k : ℕ)
      → Reaches result ts (out ++ t) k
      → Reaches result (t ∷ ts) out (suc k)
  further result t ts out k (same, below, stop) =
      let regroup : (j : ℕ)
          → length ((out ++ t) ++ joined (take j ts)) ≡ length (out ++ (t ++ joined (take j ts))) =
        λ j. ap length (append_assoc out t (joined (take j ts))) in
      (same ∙ regroup k, below, omega (arith, stop, regroup (suc k)))

  pub progress-print :
      (ts : List Text) (out : Text)
      → length out < buflen
      → (k : ℕ) × Reaches (progress (print buflen ts out)) ts out k
  unfolding print
  progress-print [] out h = (0, rw (append-nil out) (refl, h, inl refl))
  progress-print (t ∷ ts) out h = elim (Bool-cases (leb (buflen - length out) (length t))) [
    | inl full ↦ (
      0,
      rw (full, print) (ap length (sym (append-nil out)), h, inr (ends out t h (leb→le _ _ full))),
    )
    | inr fits ↦
        let (k, reached) = progress-print ts (out ++ t) (longer buflen out t (ground arith)) in
        (suc k, rw (fits, print) (further _ t ts out k reached))
  ]
