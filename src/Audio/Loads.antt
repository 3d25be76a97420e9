-- ===== src/Audio/Loads.antt =====
-- The loads of audio/audio.cpp, and what the caller gets.
use android_device_gionee_p.Common.{
  ℕ, zero, suc, ◌≡◌, refl, sym, ◌∙◌, ap, List, [], ◌∷◌, ◌++◌, append_assoc, Bool, true, false,
  Option, none, some, length,
}
use android_device_gionee_p.Common.Int.{ℤ, negsuc}
use android_device_gionee_p.Format.{Text}
use android_device_gionee_p.Audio.{Library, Shim, pass_on, with_library, legacy_adev_open, open_all}

abbrev pub with_first : ℤ → List ℤ × Option ℕ → List ℤ × Option ℕ
with_first ret (rets, device) = (ret ∷ rets, device)

module _ (lib : Library) where
  -- The libraries that the loads from the n-th on find, the last one first.
  abbrev found_one : Option ℕ → List ℕ
  found_one none = []
  found_one (some hdl) = hdl ∷ []

  pub found : ℕ → ℕ → List ℕ
  found n zero = []
  found n (suc k) = found (suc n) k ++ found_one (lib.library n)

  -- What an open gives the caller: the library's answer when it is there with its module, and -1
  -- with `*device` as it was otherwise.
  abbrev pub answer : Option ℕ → Text → Option ℕ → ℤ × Option ℕ
  answer none name device = (negsuc 0, device)
  answer (some hdl) name device = elim (lib.has_module hdl) [
    | true ↦ lib.module_open hdl name device
    | false ↦ (negsuc 0, device)
  ]

  abbrev pub answers : List Text → ℕ → Option ℕ → List ℤ × Option ℕ
  answers [] n device = ([], device)
  answers (name ∷ names) n device =
      let (ret, device') = answer (lib.library n) name device in
      with_first ret (answers names (suc n) device')

  -- A state after one open.
  record Opened (n : ℕ) (o : Option ℕ) (name : Text) (s : Shim) (res : ℤ × Shim) : Type 0 where
    caller : ◌≡◌ {A = ℤ × Option ℕ} (res.0, res.1.device) (answer o name s.device)
    loads : res.1.loads ≡ n
    held : res.1.held ≡ found_one o ++ s.held

  pass_on-Opened :
      (b : Bool) (hdl : ℕ) (name : Text) (s : Shim)
      → lib.has_module hdl ≡ b
      → Opened s.loads (some hdl) name s (pass_on lib b hdl name (record s { held = hdl ∷ s.held }))
  unfolding pass_on
  pass_on-Opened true hdl name s e = record {
    caller = rw (e, answer) refl;
    loads = refl;
    held = refl;
  }
  pass_on-Opened false hdl name s e = record {
    caller = rw (e, answer) refl;
    loads = refl;
    held = refl;
  }

  with_library-Opened :
      (o : Option ℕ) (name : Text) (s : Shim) → Opened s.loads o name s (with_library lib o name s)
  unfolding with_library
  with_library-Opened none name s = record { caller = refl; loads = refl; held = refl }
  with_library-Opened (some hdl) name s = pass_on-Opened (lib.has_module hdl) hdl name s refl

  legacy_adev_open-Opened :
      (name : Text) (s : Shim)
      → Opened (suc s.loads) (lib.library s.loads) name s (legacy_adev_open lib name s)
  unfolding legacy_adev_open
  legacy_adev_open-Opened name s =
      let h = with_library-Opened (lib.library s.loads) name (record s { loads = suc s.loads }) in
      record { caller = h.caller; loads = h.loads; held = h.held }

  -- Any sequence of opens from any state: each one gives the caller the answer of MTK's library
  -- when the library is there with its module, and -1 with `*device` as it was otherwise; and
  -- every library that was found is held for good, also where its module is missing or its own
  -- open fails.
  pub open_all_lem :
      (names : List Text) (s : Shim)
      → let (rets, t) = open_all lib names s in
        (◌≡◌ {A = List ℤ × Option ℕ} (rets, t.device) (answers names s.loads s.device))
        × (t.held ≡ found s.loads (length names) ++ s.held)
  unfolding open_all found
  open_all_lem [] s = (refl, refl)
  open_all_lem (name ∷ names) s =
      let one = legacy_adev_open-Opened name s in
      let t = (legacy_adev_open lib name s).1 in
      let (caller, held) = open_all_lem names t in
      (
        ap (λ (p : List ℤ × Option ℕ). with_first (legacy_adev_open lib name s).0 p) caller
            ∙ ap (λ (n : ℕ). with_first (legacy_adev_open lib name s).0 (answers names n t.device))
                one.loads
            ∙ ap (λ (q : ℤ × Option ℕ). with_first q.0 (answers names (suc s.loads) q.1))
                one.caller,
        held
            ∙ ap (λ (n : ℕ). found n (length names) ++ t.held) one.loads
            ∙ ap (λ (hs : List ℕ). found (suc s.loads) (length names) ++ hs) one.held
            ∙ sym (
                append_assoc (found (suc s.loads) (length names)) (found_one (lib.library s.loads))
                  s.held),
      )
