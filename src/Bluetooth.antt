-- ===== src/Bluetooth.antt =====
-- libbt-vendor-mtk/libbt-vendor-mtk.c: the Bluetooth stack's vendor interface over MTK's blob.
-- The loader (`dlopen`, `dlsym`) and the blob's two functions are the parameter `Blob`; the stack's
-- constants of bt_vendor_lib.h and bt_hci_lib.h are the parameter `Stack`.
pub mod Session
pub mod Failures
mod Tests
use android_device_gionee_p.Common.{
  ℕ, zero, suc, ◌+◌, ◌-◌, List, [], ◌∷◌, ◌++◌, Bool, true, false, ◌&&◌, Option, none, some, ◌==◌,
  ltb, length, if◌then◌else◌, set, replicate,
}
use android_device_gionee_p.Common.Int.{ℤ, pos, negsuc, ltb_ℤ, eqb_ℤ}

-- `mtk_bt_enable` and `mtk_bt_disable` of the blob, as the loader finds them.
pub record Blob : Type 0 where
  -- The handle that the n-th `dlopen` returns, if the library is there.
  pub library : ℕ → Option ℕ
  -- Whether `dlsym` finds the symbol behind a handle.
  pub has_enable : ℕ → Bool
  pub has_disable : ℕ → Bool
  -- What the n-th call of `mtk_bt_enable` returns, and what `mtk_bt_disable` does for a descriptor.
  pub enable : ℕ → ℤ
  pub disable : ℤ → ℤ

-- `BT_HC_STATUS_FAIL` and `CH_MAX`.
pub record Stack : Type 0 where
  pub status_fail : ℤ
  pub ch_max : ℕ

-- What the library does outside of its own state.
pub data Event : Type 0 where
  load unload : ℕ → Event
  enabled : Event
  disabled : ℤ → Event
  fwcfg_success epilog_success : Event

-- The statics of the file; a function pointer names the handle it was looked up behind.
-- `hci_tty_fd` is the `int` whose pattern the `unsigned int` holds.
pub record Vendor : Type 0 where
  pub mtklib_handle : Option ℕ
  pub mtk_bt_enable : Option ℕ
  pub mtk_bt_disable : Option ℕ
  pub hci_tty_fd : ℤ
  pub has_cbacks : Bool
  pub loads : ℕ
  pub enables : ℕ
  pub events : List Event

abbrev pub init : Vendor
init = record {
  mtklib_handle = none;
  mtk_bt_enable = none;
  mtk_bt_disable = none;
  hci_tty_fd = negsuc 0;
  has_cbacks = false;
  loads = 0;
  enables = 0;
  events = [];
}

-- A call returns an `int`, or it calls or reads through a null pointer, or it calls a function of
-- a library that is no longer loaded, or it writes outside of the memory that `param` points to.
pub data Outcome : Type 0 where
  returns : ℤ → Outcome
  null_call unloaded_call overrun : Outcome

-- How often the library behind a handle is loaded: the loader counts.
pub refs : ℕ → List Event → ℕ
refs handle [] = 0
refs handle (load h ∷ rest) = if h == handle then suc (refs handle rest) else refs handle rest
refs handle (unload h ∷ rest) = if h == handle then refs handle rest - 1 else refs handle rest
refs handle (_ ∷ rest) = refs handle rest

-- The words that `param` points to; a null pointer leads to none.
abbrev pub Memory : Type 0
Memory = List ℤ

abbrev pub log : Event → Vendor → Vendor
log e v = record v { events = e ∷ v.events }

-- `for (idx = 0; idx < CH_MAX; idx++) (*fd_array)[idx] = fd`, from channel `idx` on, where there is
-- room for all of them.
pub fill : ℕ → ℕ → ℤ → Memory → Memory
fill zero idx fd param = param
fill (suc left) idx fd param = fill left (suc idx) fd (set param idx fd)

module _ (blob : Blob) where
  abbrev pub find : Bool → ℕ → Option ℕ
  find true handle = some handle
  find false handle = none

  -- `dlsym` twice; if `dlerror` has something to say the library is closed again.
  pub look_up : ℕ → Vendor → Outcome × Vendor
  look_up handle v =
      let w = record v {
        mtk_bt_enable = find (blob.has_enable handle) handle;
        mtk_bt_disable = find (blob.has_disable handle) handle;
      } in
      (
        returns (pos 0),
        if blob.has_enable handle && blob.has_disable handle then w else log (unload handle) w,
      )

  -- A null handle is returned as it is, cast to `int`.
  pub load_library : Option ℕ → Vendor → Outcome × Vendor
  unfolding look_up
  load_library none v = (returns (pos 0), record v { mtklib_handle = none })
  load_library (some handle) v =
      look_up handle (log (load handle) (record v { mtklib_handle = some handle }))

  pub mtk_init : Stack → Bool → Vendor → Outcome × Vendor
  unfolding load_library
  mtk_init stack false v = (returns stack.status_fail, v)
  mtk_init stack true v =
      load_library (blob.library v.loads) (record v { has_cbacks = true; loads = suc v.loads })

  pub unload_library : Option ℕ → Vendor → Vendor
  unload_library none v = v
  unload_library (some handle) v = log (unload handle) v

  pub mtk_cleanup : Vendor → Vendor
  unfolding unload_library
  mtk_cleanup v = unload_library v.mtklib_handle (record v { has_cbacks = false })

  pub on_enabled : Stack → ℤ → Memory → Vendor → Outcome × Memory × Vendor
  unfolding fill
  on_enabled stack fd param v =
      if ltb_ℤ fd (pos 0)
      then (returns (negsuc 0), param, v)
      else if ltb (length param) stack.ch_max
      then (overrun, param, v)
      else (returns (pos 1), fill stack.ch_max 0 fd param, record v { hci_tty_fd = fd })

  pub enable_blob : Option ℕ → Stack → Memory → Vendor → Outcome × Memory × Vendor
  unfolding on_enabled
  enable_blob none stack param v = (null_call, param, v)
  enable_blob (some handle) stack param v =
      if refs handle v.events == 0
      then (unloaded_call, param, v)
      else on_enabled stack (blob.enable v.enables) param
          (log enabled (record v { enables = suc v.enables }))

  pub mtk_open : Stack → Memory → Vendor → Outcome × Memory × Vendor
  unfolding enable_blob
  mtk_open stack param v = enable_blob v.mtk_bt_enable stack param v

  pub disable_blob : Option ℕ → Vendor → Outcome × Vendor
  disable_blob none v = (null_call, v)
  disable_blob (some handle) v =
      if refs handle v.events == 0
      then (unloaded_call, v)
      else (returns (blob.disable v.hci_tty_fd), log (disabled v.hci_tty_fd) v)

  pub mtk_close : Vendor → Outcome × Vendor
  unfolding disable_blob
  mtk_close v =
      if eqb_ℤ v.hci_tty_fd (negsuc 0)
      then (returns (negsuc 0), v)
      else disable_blob v.mtk_bt_disable v

-- The opcodes of bt_vendor_lib.h that the switch names, and any other.
pub data Opcode : Type 0 where
  power_ctrl sco_cfg get_lpm_idle_timeout lpm_set_mode lpm_wake_set_state : Opcode
  userial_open userial_close fw_cfg epilog : Opcode
  other_opcode : ℕ → Opcode

abbrev pub wl_default_lpm_idle_timeout : ℤ
wl_default_lpm_idle_timeout = pos 200

-- A callback through the table of the stack, which may be null.
pub call_back : Event → Memory → Vendor → Outcome × Memory × Vendor
call_back e param v =
    if v.has_cbacks then (returns (pos 0), param, log e v) else (null_call, param, v)

module _ (blob : Blob) where
  pub mtk_op : Stack → Opcode → Memory → Vendor → Outcome × Memory × Vendor
  unfolding mtk_open mtk_close call_back
  mtk_op stack get_lpm_idle_timeout [] v = (overrun, [], v)
  mtk_op stack get_lpm_idle_timeout (word ∷ words) v =
      (returns (pos 0), wl_default_lpm_idle_timeout ∷ words, v)
  mtk_op stack userial_open param v = mtk_open blob stack param v
  mtk_op stack userial_close param v = let (outcome, w) = mtk_close blob v in (outcome, param, w)
  mtk_op stack fw_cfg param v = call_back fwcfg_success param v
  mtk_op stack epilog param v = call_back epilog_success param v
  mtk_op stack _ param v = (returns (pos 0), param, v)
