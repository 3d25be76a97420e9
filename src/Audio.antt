-- ===== src/Audio.antt =====
-- audio/audio.cpp: `legacy_adev_open`, which loads MTK's audio library and passes the open on to
-- it. The loader and that library are parameters: the n-th `dlopen` meets `library n`.
pub mod Loads
mod Tests
use android_device_gionee_p.Common.{ℕ, suc, List, [], ◌∷◌, Bool, true, false, Option, none, some}
use android_device_gionee_p.Common.Int.{ℤ, negsuc}
use android_device_gionee_p.Common.State.{State}
use android_device_gionee_p.Format.{Text}

pub record Library : Type 0 where
  -- The handle of "libaudio.primary.default.so", when `dlopen` finds it.
  pub library : ℕ → Option ℕ
  -- Whether `dlsym` finds `HMI` behind a handle, and what the library's own `open` makes of a
  -- name and of `*device`.
  pub has_module : ℕ → Bool
  pub module_open : ℕ → Text → Option ℕ → ℤ × Option ℕ

pub record Shim : Type 0 where
  pub loads : ℕ
  -- The handles that were got and not given back by `dlclose`.
  pub held : List ℕ
  -- `*device` of the caller.
  pub device : Option ℕ

module _ (lib : Library) where
  pub pass_on : Bool → ℕ → Text → State Shim ℤ
  pass_on false hdl name s = (negsuc 0, s)
  pass_on true hdl name s =
      let (ret, device) = lib.module_open hdl name s.device in (ret, record s { device = device })

  pub with_library : Option ℕ → Text → State Shim ℤ
  unfolding pass_on
  with_library none name s = (negsuc 0, s)
  with_library (some hdl) name s =
      pass_on (lib.has_module hdl) hdl name (record s { held = hdl ∷ s.held })

  pub legacy_adev_open : Text → State Shim ℤ
  unfolding with_library
  legacy_adev_open name s =
      with_library (lib.library s.loads) name (record s { loads = suc s.loads })

  -- One open after the other.
  pub open_all : List Text → State Shim (List ℤ)
  unfolding legacy_adev_open
  open_all [] s = ([], s)
  open_all (name ∷ names) s =
      let (ret, t) = legacy_adev_open name s in let (rets, u) = open_all names t in (ret ∷ rets, u)
