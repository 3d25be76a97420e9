-- ===== src/Lights/Device.antt =====
-- The module methods of liblight/lights.c: opening a light by its name, and closing it.
-- The names `LIGHT_ID_*` are those of hardware/lights.h, and `malloc` answers an address or null:
-- both are parameters.
mod Tests
use Prim.Native.String.{String}
use text.Mathlib.Text.{◌==◌ as str_eq}
use text.Mathlib.TextEquality.{eq_iff}
use android_device_gionee_p.Common.{
  ℕ, suc, ◌≡◌, ◌≢◌, inl, inr, refl, List, [], ◌∷◌, Bool, true, false, Option, none, some, ◌==◌,
  if◌then◌else◌, arith, Option-cases,
}
use android_device_gionee_p.Common.Int.{ℤ, pos, negsuc, neg_ℕ}
use android_device_gionee_p.Common.State.{State}
use android_device_gionee_p.Lights.{
  Light, backlight, notifications, attention, battery, buttons, einval,
}

pub record LightIds : Type 0 where
  pub id_backlight : String
  pub id_notifications : String
  pub id_attention : String
  pub id_battery : String
  pub id_buttons : String

-- `pthread_once(&g_init, init_globals)`, the mutexes it made, and the devices handed out.
pub record Module : Type 0 where
  pub once_done : Bool
  pub mutex_inits : ℕ
  pub devices : List (ℕ × Light)

abbrev pub fresh : Module
fresh = record { once_done = false; mutex_inits = 0; devices = [] }

-- `null_write` is `memset` on a null pointer.
pub data Opened : Type 0 where
  refused : ℤ → Opened
  opened : ℕ → Light → Opened
  null_write : Opened

-- The chain of `strcmp`.
pub choose : LightIds → String → Option Light
choose ids name =
    if str_eq ids.id_backlight name
    then some backlight
    else if str_eq ids.id_notifications name
    then some notifications
    else if str_eq ids.id_attention name
    then some attention
    else if str_eq ids.id_battery name
    then some battery
    else if str_eq ids.id_buttons name
    then some buttons
    else none

pub init_globals_once : Module → Module
init_globals_once m =
    if m.once_done then m else record m { once_done = true; mutex_inits = suc m.mutex_inits }

pub allocate : Option ℕ → Light → State Module Opened
allocate none light m = (null_write, m)
allocate (some address) light m =
    (opened address light, record m { devices = (address, light) ∷ m.devices })

pub open_chosen : Option Light → Option ℕ → State Module Opened
unfolding allocate init_globals_once
open_chosen none malloc m = (refused (neg_ℕ einval), m)
open_chosen (some light) malloc m = allocate malloc light (init_globals_once m)

pub open_lights : LightIds → String → Option ℕ → State Module Opened
unfolding open_chosen
open_lights ids name malloc = open_chosen (choose ids name) malloc

pub free : ℕ → List (ℕ × Light) → List (ℕ × Light)
free address [] = []
free address ((a, light) ∷ rest) = if a == address then rest else (a, light) ∷ free address rest

-- A null device is not freed.
pub close_lights : Option ℕ → State Module ℤ
unfolding free
close_lights none m = (pos 0, m)
close_lights (some address) m = (pos 0, record m { devices = free address m.devices })

-- No two of the five names are the same.
abbrev pub AreDistinct : LightIds → Type 0
AreDistinct ids =
    (ids.id_backlight ≢ ids.id_notifications)
    × (ids.id_backlight ≢ ids.id_attention)
    × (ids.id_backlight ≢ ids.id_battery)
    × (ids.id_backlight ≢ ids.id_buttons)
    × (ids.id_notifications ≢ ids.id_attention)
    × (ids.id_notifications ≢ ids.id_battery)
    × (ids.id_notifications ≢ ids.id_buttons)
    × (ids.id_attention ≢ ids.id_battery)
    × (ids.id_attention ≢ ids.id_buttons)
    × (ids.id_battery ≢ ids.id_buttons)

abbrev pub name_of : LightIds → Light → String
name_of ids backlight = ids.id_backlight
name_of ids notifications = ids.id_notifications
name_of ids attention = ids.id_attention
name_of ids battery = ids.id_battery
name_of ids buttons = ids.id_buttons

module _ (ids : LightIds) where
  choose-name_of : (light : Light) → AreDistinct ids → choose ids (name_of ids light) ≡ some light
  unfolding choose
  choose-name_of backlight d = ground (arith, eq_iff ids.id_backlight ids.id_backlight)
  choose-name_of notifications d = ground (
    arith,
    eq_iff ids.id_backlight ids.id_notifications,
    eq_iff ids.id_notifications ids.id_notifications,
  )
  choose-name_of attention d = ground (
    arith,
    eq_iff ids.id_backlight ids.id_attention,
    eq_iff ids.id_notifications ids.id_attention,
    eq_iff ids.id_attention ids.id_attention,
  )
  choose-name_of battery d = ground (
    arith,
    eq_iff ids.id_backlight ids.id_battery,
    eq_iff ids.id_notifications ids.id_battery,
    eq_iff ids.id_attention ids.id_battery,
    eq_iff ids.id_battery ids.id_battery,
  )
  choose-name_of buttons d = ground (
    arith,
    eq_iff ids.id_backlight ids.id_buttons,
    eq_iff ids.id_notifications ids.id_buttons,
    eq_iff ids.id_attention ids.id_buttons,
    eq_iff ids.id_battery ids.id_buttons,
    eq_iff ids.id_buttons ids.id_buttons,
  )

  name_of-choose :
      (name : String) (light : Light) → choose ids name ≡ some light → name_of ids light ≡ name
  unfolding choose
  name_of-choose name light h = ground (
    arith,
    eq_iff ids.id_backlight name,
    eq_iff ids.id_notifications name,
    eq_iff ids.id_attention name,
    eq_iff ids.id_battery name,
    eq_iff ids.id_buttons name,
  )

  -- Where the five names differ and `malloc` succeeds: a light's own name opens that light, as the
  -- newest device, with the mutex made if no opening made it before.
  pub open_lights_known :
      (light : Light) (address : ℕ) (m : Module)
      → AreDistinct ids
      → open_lights ids (name_of ids light) (some address) m ≡ (
        opened address light,
        record {
          once_done = true;
          mutex_inits = if m.once_done then m.mutex_inits else suc m.mutex_inits;
          devices = (address, light) ∷ m.devices;
        },
      )
  unfolding open_lights
  open_lights_known light address m d = rw (choose-name_of light d) (ground arith)

  -- A name that is none of the five is refused with -EINVAL, and nothing changes.
  pub open_lights_unknown :
      (name : String) (malloc : Option ℕ) (m : Module)
      → ((light : Light) → name_of ids light ≢ name)
      → open_lights ids name malloc m ≡ (refused (negsuc 21), m)
  unfolding open_lights
  open_lights_unknown name malloc m unknown = elim (Option-cases (choose ids name)) [
    | inl missed ↦ rw missed
    | inr (light, found) ↦ absurd (unknown light (name_of-choose name light found))
  ]

-- The mutex was made once if an opening got that far, and not at all otherwise.
abbrev pub IsOnce : Module → Type 0
IsOnce m = m.mutex_inits ≡ (if m.once_done then 1 else 0)

open_chosen-IsOnce :
    (chosen : Option Light) (malloc : Option ℕ) (m : Module)
    → IsOnce m
    → IsOnce (open_chosen chosen malloc m).1
unfolding open_chosen
open_chosen-IsOnce none malloc m h = h
open_chosen-IsOnce (some light) none m h = ground arith
open_chosen-IsOnce (some light) (some address) m h = ground arith

-- Any openings, by any names and with any answers of `malloc`.
pub open_all : LightIds → List (String × Option ℕ) → Module → Module
open_all ids [] m = m
open_all ids ((name, malloc) ∷ rest) m = open_all ids rest (open_lights ids name malloc m).1

-- However often lights are opened, `init_globals` makes the mutex at most once.
pub open_all-IsOnce :
    (ids : LightIds) (names : List (String × Option ℕ)) (m : Module)
    → IsOnce m
    → IsOnce (open_all ids names m)
unfolding open_all open_lights
open_all-IsOnce ids [] m h = h
open_all-IsOnce ids ((name, malloc) ∷ rest) m h =
    open_all-IsOnce ids rest (open_chosen (choose ids name) malloc m).1
      (open_chosen-IsOnce (choose ids name) malloc m h)

-- Closing the light that was just opened leaves the devices that there were before.
pub close-open_lights :
    (ids : LightIds) (name : String) (address : ℕ) (light : Light) (m : Module)
    → (open_lights ids name (some address) m).0 ≡ opened address light
    → ((close_lights (some address) (open_lights ids name (some address) m).1).0 ≡ pos 0)
      × ((close_lights (some address) (open_lights ids name (some address) m).1).1.devices
          ≡ m.devices)
unfolding open_lights close_lights open_chosen
close-open_lights ids name address light m h = elim (Option-cases (choose ids name)) [
  | inl missed ↦ let bad : refused (negsuc 21) ≡ opened address light = rw missed at h in cc
  | inr (other, found) ↦ rw found (refl, ground arith)
]
