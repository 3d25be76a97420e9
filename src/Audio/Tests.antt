-- ===== src/Audio/Tests.antt =====
-- Opens of audio/audio.cpp at concrete inputs.
use android_device_gionee_p.Common.{
  ℕ, ◌≡◌, ◌++◌, List, [], ◌∷◌, Option, none, some, ◌==◌, if◌then◌else◌, length,
}
use android_device_gionee_p.Common.Int.{ℤ, pos}
use android_device_gionee_p.Format.{Text, codes}
use android_device_gionee_p.Audio.{Library, Shim, open_all}
use android_device_gionee_p.Audio.Loads.{answers, found, open_all_lem}

-- The library is missing at first, then without its module, then whole.
abbrev lib : Library
lib = record {
  library = λ n. if n == 0 then none else some n;
  has_module = λ hdl. hdl == 2;
  module_open = λ hdl name device. (pos 0, some hdl);
}

abbrev closed : Shim
closed = record { loads = 0; held = []; device = none }

abbrev names : List Text
names = codes "primary" ∷ codes "primary" ∷ codes "primary" ∷ []

open_all_lem_example :
    let (rets, t) = open_all lib names closed in
    (◌≡◌ {A = List ℤ × Option ℕ} (rets, t.device) (answers lib names closed.loads closed.device))
    × (t.held ≡ found lib closed.loads (length names) ++ closed.held)
open_all_lem_example = open_all_lem lib names closed
