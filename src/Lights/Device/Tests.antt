-- ===== src/Lights/Device/Tests.antt =====
-- Openings of liblight/lights.c with the names of hardware/lights.h.
use android_device_gionee_p.Common.{refl, ◌≡◌, [], ◌∷◌, true, some}
use android_device_gionee_p.Lights.{attention}
use android_device_gionee_p.Lights.Device.{LightIds, fresh, opened, open_lights, choose}

abbrev ids : LightIds
ids = record {
  id_backlight = "backlight";
  id_notifications = "notifications";
  id_attention = "attention";
  id_battery = "battery";
  id_buttons = "buttons";
}

opens_attention : open_lights ids "attention" (some 7) fresh ≡ (
  opened 7 attention,
  record { once_done = true; mutex_inits = 1; devices = (7, attention) ∷ [] },
)
unfolding open_lights choose
opens_attention = refl
