-- ===== src/Lights/Threads.antt =====
-- The framework's threads in liblight/lights.c: each calls lights one after the other, and any
-- thread may make the next access at any time. `g_lock` keeps them apart.
pub mod Serial
pub mod Served
pub mod Asked
pub mod Visible
pub mod Progress
mod Weights
mod Finish
pub mod Schedule
mod Tests
use android_device_gionee_p.Common.{
  ℕ, zero, suc, ◌≡◌, List, [], ◌∷◌, ◌++◌, Bool, true, false, Option, none, some, get_elem?, set,
  map, ◌==◌, if◌then◌else◌,
}
use android_device_gionee_p.Lights.{LightState, Lights, Light}
use android_device_gionee_p.Lights.Code.{Code, done, call_code, advance, IsPending}

abbrev pub Call : Type 0
Call = Light × LightState

-- Outside of the lock with calls to make, or between lock and unlock with what is left of a call.
pub data Thread : Type 0 where
  idle : List Call → Thread
  inside : Code → List Call → Thread

-- `served` only records: the calls in the order in which they got the lock, with their threads.
pub record System : Type 0 where
  pub lights : Lights
  pub locked : Bool
  pub threads : List Thread
  pub served : List (ℕ × Call)

-- One step of one thread. A thread that waits in `pthread_mutex_lock` has no step.
pub data Step (s : System) : System → Type 0 where
  enter :
      (i : ℕ) (light : Light) (state : LightState) (calls : List Call)
      → get_elem? s.threads i ≡ some (idle ((light, state) ∷ calls))
      → s.locked ≡ false
      → Step s (record s {
        locked = true;
        threads = set s.threads i (inside (call_code light state) calls);
        served = s.served ++ (i, (light, state)) ∷ [];
      })
  access :
      (i : ℕ) (c : Code) (calls : List Call)
      → get_elem? s.threads i ≡ some (inside c calls)
      → IsPending c
      → Step s (record s {
        lights = (advance c s.lights).1;
        threads = set s.threads i (inside (advance c s.lights).0 calls);
      })
  leave :
      (i : ℕ) (c : Code) (calls : List Call)
      → get_elem? s.threads i ≡ some (inside c calls)
      → (IsPending c → ⊥)
      → Step s (record s { locked = false; threads = set s.threads i (idle calls) })

pub data Reach (s : System) : System → Type 0 where
  here : Reach s s
  next : {t u : System} → Reach s t → Step t u → Reach s u

abbrev pub all_idle : List (List Call) → List Thread
all_idle [] = []
all_idle (calls ∷ rest) = idle calls ∷ all_idle rest

-- The threads before their first calls.
abbrev pub start : Lights → List (List Call) → System
start l plans = record { lights = l; locked = false; threads = all_idle plans; served = [] }

-- The calls alone, and those of one thread.
abbrev pub order : List (ℕ × Call) → List Call
order [] = []
order ((i, call) ∷ rest) = call ∷ order rest

abbrev pub calls_of : ℕ → List (ℕ × Call) → List Call
calls_of i [] = []
calls_of i ((j, call) ∷ rest) = let more = calls_of i rest in if j == i then call ∷ more else more

-- What a thread has still to begin.
abbrev pub left : Option Thread → List Call
left none = []
left (some (idle calls)) = calls
left (some (inside c calls)) = calls
