-- ===== src/Xlog/Stubs/Untouched.antt =====
-- The methods of libxlog/mtkaudio.cpp leave the caller's memory as it is.
use android_device_gionee_p.Common.{◌≡◌, refl}
use android_device_gionee_p.Xlog.Stubs.{
  Memory, AudioSystem, audio_system, Matv, matv, Client, client, Fm, fm,
}

pub audio_system-memory : (m : AudioSystem) (mem : Memory) → (audio_system m mem).1 ≡ mem
unfolding audio_system
audio_system-memory AudioSystem.get_voice_unlock_dl_instance mem = refl
audio_system-memory AudioSystem.get_voice_unlock_dl_latency mem = refl
audio_system-memory AudioSystem.stop_voice_unlock_dl mem = refl
audio_system-memory AudioSystem.start_voice_unlock_dl mem = refl
audio_system-memory AudioSystem.free_voice_unlock_dl_instance mem = refl
audio_system-memory (AudioSystem.set_voice_unlock_src out_sr out_channel) mem = refl
audio_system-memory (AudioSystem.read_ref_from_ring buf datasz dl_time) mem = refl
audio_system-memory (AudioSystem.get_voice_unlock_ul_time dl_time) mem = refl

pub matv-memory : (m : Matv) (mem : Memory) → (matv m mem).1 ≡ mem
unfolding matv
matv-memory Matv.init mem = refl
matv-memory Matv.shutdown mem = refl
matv-memory Matv.chscan_stop mem = refl
matv-memory Matv.clear_chtable mem = refl
matv-memory Matv.audio_play mem = refl
matv-memory Matv.audio_stop mem = refl
matv-memory Matv.audio_get_format mem = refl
matv-memory Matv.audio_get_sound_system mem = refl
matv-memory Matv.register_callback mem = refl
matv-memory (Matv.ps_init on) mem = refl
matv-memory (Matv.set_parameterb value) mem = refl
matv-memory (Matv.suspend on) mem = refl
matv-memory (Matv.chscan mode) mem = refl
matv-memory (Matv.change_channel ch) mem = refl
matv-memory (Matv.set_country country) mem = refl
matv-memory (Matv.set_tparam mode) mem = refl
matv-memory (Matv.audio_set_format val) mem = refl
matv-memory (Matv.get_chipdep item) mem = refl
matv-memory (Matv.adjust item val) mem = refl
matv-memory (Matv.set_chipdep item val) mem = refl
matv-memory (Matv.get_chtable ch entry len) mem = refl
matv-memory (Matv.set_chtable ch entry len) mem = refl

pub client-memory : (m : Client) (mem : Memory) → (client m mem).1 ≡ mem
unfolding client
client-memory (Client.register_client c) mem = refl
client-memory (Client.register_client_fm c) mem = refl
client-memory (Client.cli input) mem = refl

pub fm-memory : (m : Fm) (mem : Memory) → (fm m mem).1 ≡ mem
unfolding fm
fm-memory Fm.powerdown mem = refl
fm-memory Fm.getrssi mem = refl
fm-memory Fm.getchipid mem = refl
fm-memory Fm.is_fm_power_up mem = refl
fm-memory (Fm.mute val) mem = refl
fm-memory (Fm.powerup parm len) mem = refl
fm-memory (Fm.tune parm len) mem = refl
fm-memory (Fm.seek parm len) mem = refl
fm-memory (Fm.scan parm len) mem = refl
