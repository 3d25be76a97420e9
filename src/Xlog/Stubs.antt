-- ===== src/Xlog/Stubs.antt =====
-- libxlog/mtkaudio.cpp: the methods of `AudioSystem` and of the ATV service that MTK's libraries
-- link against. None of them does anything: each gives a constant back, and leaves what its
-- pointers point to as it is.
pub mod Untouched
use android_device_gionee_p.Common.{ℕ, Bool, true, false}
use android_device_gionee_p.Common.Int.{ℤ, pos}

-- Bytes by address; a pointer is an address.
abbrev pub Memory : Type 0
Memory = ℕ → ℕ

pub data Reply : Type 0 where
  a_bool : Bool → Reply
  an_int : ℤ → Reply
  nothing : Reply

pub data AudioSystem : Type 0 where
  get_voice_unlock_dl_instance get_voice_unlock_dl_latency stop_voice_unlock_dl : AudioSystem
  start_voice_unlock_dl free_voice_unlock_dl_instance : AudioSystem
  set_voice_unlock_src : ℕ → ℕ → AudioSystem
  read_ref_from_ring : ℕ → ℕ → ℕ → AudioSystem
  get_voice_unlock_ul_time : ℕ → AudioSystem

pub audio_system : AudioSystem → Memory → Reply × Memory
audio_system get_voice_unlock_dl_instance mem = (a_bool false, mem)
audio_system get_voice_unlock_dl_latency mem = (an_int (pos 0), mem)
audio_system stop_voice_unlock_dl mem = (a_bool false, mem)
audio_system start_voice_unlock_dl mem = (a_bool false, mem)
audio_system free_voice_unlock_dl_instance mem = (nothing, mem)
audio_system (set_voice_unlock_src out_sr out_channel) mem = (an_int (pos 0), mem)
audio_system (read_ref_from_ring buf datasz dl_time) mem = (an_int (pos 0), mem)
audio_system (get_voice_unlock_ul_time dl_time) mem = (an_int (pos 0), mem)

-- The methods "ATVCS_matv_…" of `BpATVCtrlService`.
pub data Matv : Type 0 where
  init shutdown chscan_stop clear_chtable audio_play audio_stop audio_get_format : Matv
  audio_get_sound_system register_callback : Matv
  ps_init set_parameterb suspend chscan change_channel set_country set_tparam : ℤ → Matv
  audio_set_format get_chipdep : ℤ → Matv
  adjust set_chipdep : ℤ → ℤ → Matv
  get_chtable set_chtable : ℤ → ℕ → ℤ → Matv

pub matv : Matv → Memory → Reply × Memory
matv init mem = (an_int (pos 0), mem)
matv shutdown mem = (an_int (pos 0), mem)
matv chscan_stop mem = (nothing, mem)
matv clear_chtable mem = (an_int (pos 0), mem)
matv audio_play mem = (nothing, mem)
matv audio_stop mem = (nothing, mem)
matv audio_get_format mem = (an_int (pos 0), mem)
matv audio_get_sound_system mem = (an_int (pos 0), mem)
matv register_callback mem = (nothing, mem)
matv (ps_init on) mem = (an_int (pos 0), mem)
matv (set_parameterb value) mem = (an_int (pos 0), mem)
matv (suspend on) mem = (an_int (pos 0), mem)
matv (chscan mode) mem = (nothing, mem)
matv (change_channel ch) mem = (nothing, mem)
matv (set_country country) mem = (nothing, mem)
matv (set_tparam mode) mem = (nothing, mem)
matv (audio_set_format val) mem = (nothing, mem)
matv (get_chipdep item) mem = (an_int (pos 0), mem)
matv (adjust item val) mem = (an_int (pos 0), mem)
matv (set_chipdep item val) mem = (an_int (pos 0), mem)
matv (get_chtable ch entry len) mem = (an_int (pos 0), mem)
matv (set_chtable ch entry len) mem = (an_int (pos 0), mem)

-- `registerClient`, `registerClient_FM` and `CLI`.
pub data Client : Type 0 where
  register_client register_client_fm cli : ℕ → Client

pub client : Client → Memory → Reply × Memory
client (register_client c) mem = (nothing, mem)
client (register_client_fm c) mem = (nothing, mem)
client (cli input) mem = (nothing, mem)

-- The methods "ATVCS_fm_…".
pub data Fm : Type 0 where
  powerdown getrssi getchipid is_fm_power_up : Fm
  mute : ℤ → Fm
  powerup tune seek scan : ℕ → ℤ → Fm

pub fm : Fm → Memory → Reply × Memory
fm powerdown mem = (an_int (pos 0), mem)
fm getrssi mem = (an_int (pos 0), mem)
fm getchipid mem = (an_int (pos 0), mem)
fm is_fm_power_up mem = (an_int (pos 0), mem)
fm (mute val) mem = (an_int (pos 0), mem)
fm (powerup parm len) mem = (an_int (pos 0), mem)
fm (tune parm len) mem = (an_int (pos 0), mem)
fm (seek parm len) mem = (an_int (pos 0), mem)
fm (scan parm len) mem = (an_int (pos 0), mem)
