-- ===== src/Bluetooth/Tests.antt =====
-- Runs of libbt-vendor-mtk.c with a small blob.
use android_device_gionee_p.Common.{
  ℕ, ◌≡◌, refl, List, [], ◌∷◌, true, false, some, none, arith, ltb, if◌then◌else◌, get_or, length,
}
use android_device_gionee_p.Common.Int.{pos, negsuc}
use android_device_gionee_p.Bluetooth.{
  Blob, Stack, Vendor, init, load, unload, returns, null_call, unloaded_call, refs, Memory,
  mtk_init, mtk_cleanup, Opcode, userial_open, userial_close, fw_cfg, epilog, mtk_op,
}
use android_device_gionee_p.Bluetooth.Session.{
  IsReady, Returns, AllReturn, run, run-mtk_init, userial_open_lem,
}
use android_device_gionee_p.Bluetooth.Failures.{missing_library, missing_symbol, after_cleanup}

abbrev stack : Stack
stack = record { status_fail = pos 1; ch_max = 4 }

-- Handle 9 behind every load, descriptor 42, and 0 for closing it.
abbrev whole : Blob
whole = record {
  library = λ n. some 9;
  has_enable = λ h. true;
  has_disable = λ h. true;
  enable = λ n. pos 42;
  disable = λ fd. pos 0;
}

abbrev absent : Blob
absent = record whole { library = λ n. none }

abbrev partial : Blob
partial = record whole { has_disable = λ h. false }

abbrev busy : Blob
busy = record whole { enable = λ n. negsuc 15 }

abbrev ready : Vendor
ready = record init {
  mtklib_handle = some 9;
  mtk_bt_enable = some 9;
  mtk_bt_disable = some 9;
  has_cbacks = true;
  loads = 1;
  events = load 9 ∷ [];
}

ready-IsReady : IsReady 9 ready
unfolding refs
ready-IsReady = ground arith

abbrev words : Memory
words = pos 0 ∷ pos 0 ∷ pos 0 ∷ pos 0 ∷ pos 7 ∷ []

abbrev requests : List (Opcode × Memory)
requests = (userial_open, words) ∷ (fw_cfg, []) ∷ (epilog, []) ∷ (userial_close, []) ∷ []

run-mtk_init_example :
    ((mtk_init whole stack true init).0 ≡ returns (pos 0))
    × AllReturn whole stack (run whole stack requests (mtk_init whole stack true init).1).0
run-mtk_init_example =
    run-mtk_init whole stack 9 requests init refl refl refl (omega arith, (tt, (tt, (tt, tt))))

userial_open_lem_example :
    let (outcome, param', v') = mtk_op whole stack userial_open words ready in
    (outcome ≡ returns (pos 1))
    × ((i : ℕ) → get_or param' i (pos 0) ≡ (if ltb i 4 then pos 42 else get_or words i (pos 0)))
    × (length param' ≡ 5)
    × (v'.hci_tty_fd ≡ pos 42)
userial_open_lem_example =
    userial_open_lem whole stack 9 42 words ready ready-IsReady refl (omega arith)

missing_library_example :
    let (outcome, w) = mtk_init absent stack true init in
    (outcome ≡ returns (pos 0)) × ((mtk_op absent stack userial_open words w).0 ≡ null_call)
missing_library_example = missing_library absent stack words init refl refl

missing_symbol_example :
    let (outcome, w) = mtk_init partial stack true init in
    (outcome ≡ returns (pos 0)) × (¬ Returns (mtk_op partial stack userial_open words w).0)
unfolding refs
missing_symbol_example = missing_symbol partial stack 9 words init refl refl refl

after_cleanup_example :
    let w = mtk_cleanup whole ready in
    ((mtk_cleanup whole w).events ≡ unload 9 ∷ unload 9 ∷ load 9 ∷ [])
    × ((mtk_op whole stack userial_open words w).0 ≡ unloaded_call)
unfolding refs
after_cleanup_example = after_cleanup whole stack 9 words ready ready-IsReady refl
