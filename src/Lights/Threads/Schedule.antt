-- ===== src/Lights/Threads/Schedule.antt =====
-- The threads of liblight/lights.c under a given order of turns, by evaluation.
use android_device_gionee_p.Common.{
  ℕ, ◌≡◌, refl, List, [], ◌∷◌, Bool, true, false, Option, none, some, get_elem?,
}
use android_device_gionee_p.Lights.{Lights}
use android_device_gionee_p.Lights.Code.{
  done, write, write_blink, read_led, read_cur_led, store_on, store_off, store_color, store_cur_led,
}
use android_device_gionee_p.Lights.Threads.{
  Call, Thread, idle, inside, System, enter, access, leave, Reach, here, next, start,
}

pub record Run (first : System) : Type 0 where
  pub last : System
  pub reach : Reach first last

-- With the lock taken, a thread that wants it waits.
enter_if :
    {first : System} (r : Run first) (i : ℕ) (call : Call) (calls : List Call)
    → get_elem? r.last.threads i ≡ some (idle (call ∷ calls))
    → (locked : Bool) → r.last.locked ≡ locked
    → Run first
enter_if r i call calls at true e = r
enter_if r i (light, state) calls at false e = record {
  last = _;
  reach = next r.reach (enter i light state calls at e);
}

turn_of :
    {first : System} (r : Run first) (i : ℕ) (o : Option Thread)
    → get_elem? r.last.threads i ≡ o
    → Run first
unfolding enter_if
turn_of r i none e = r
turn_of r i (some (idle [])) e = r
turn_of r i (some (idle (call ∷ calls))) e = enter_if r i call calls e r.last.locked refl
turn_of r i (some (inside (done ret) calls)) e = record {
  last = _;
  reach = next r.reach (leave i (done ret) calls e (λ h. h));
}
turn_of r i (some (inside (write f value rest) calls)) e = record {
  last = _;
  reach = next r.reach (access i (write f value rest) calls e tt);
}
turn_of r i (some (inside (write_blink f on off rest) calls)) e = record {
  last = _;
  reach = next r.reach (access i (write_blink f on off rest) calls e tt);
}
turn_of r i (some (inside (read_led j rest) calls)) e = record {
  last = _;
  reach = next r.reach (access i (read_led j rest) calls e tt);
}
turn_of r i (some (inside (read_cur_led rest) calls)) e = record {
  last = _;
  reach = next r.reach (access i (read_cur_led rest) calls e tt);
}
turn_of r i (some (inside (store_on j on rest) calls)) e = record {
  last = _;
  reach = next r.reach (access i (store_on j on rest) calls e tt);
}
turn_of r i (some (inside (store_off j off rest) calls)) e = record {
  last = _;
  reach = next r.reach (access i (store_off j off rest) calls e tt);
}
turn_of r i (some (inside (store_color j color rest) calls)) e = record {
  last = _;
  reach = next r.reach (access i (store_color j color rest) calls e tt);
}
turn_of r i (some (inside (store_cur_led cur rest) calls)) e = record {
  last = _;
  reach = next r.reach (access i (store_cur_led cur rest) calls e tt);
}

unfoldable pub turns : {first : System} → Run first → List ℕ → Run first
unfolding turn_of
turns r [] = r
turns r (i ∷ rest) = turns (turn_of r i (get_elem? r.last.threads i) refl) rest

unfoldable pub schedule : (l : Lights) (plans : List (List Call)) → List ℕ → Run (start l plans)
unfolding turns
schedule l plans order = turns (record { last = start l plans; reach = here }) order
