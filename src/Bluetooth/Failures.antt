-- ===== src/Bluetooth/Failures.antt =====
-- The vendor interface of libbt-vendor-mtk.c when the blob is incomplete, and after `cleanup`.
use android_device_gionee_p.Common.{ℕ, ◌≡◌, refl, ◌∷◌, true, false, ◌&&◌, none, some, arith}
use android_device_gionee_p.Common.Int.{pos}
use android_device_gionee_p.Bluetooth.{
  Blob, Stack, unload, Vendor, returns, null_call, unloaded_call, refs, Memory, mtk_init,
  mtk_cleanup, mtk_open, mtk_op, userial_open,
}
use android_device_gionee_p.Bluetooth.Session.{IsReady, Returns}

module _ (blob : Blob) (stack : Stack) where
  -- `init` without callbacks returns the stack's failure status and changes nothing.
  pub mtk_init_refused : (v : Vendor) → mtk_init blob stack false v ≡ (returns stack.status_fail, v)
  unfolding mtk_init
  mtk_init_refused v = refl

  -- When the library cannot be opened, `init` still returns 0, as on success, and the first
  -- `USERIAL_OPEN` calls through a null pointer, unless an earlier `init` found the function.
  pub missing_library :
      (param : Memory) (v : Vendor)
      → blob.library v.loads ≡ none
      → v.mtk_bt_enable ≡ none
      → let (outcome, w) = mtk_init blob stack true v in
        (outcome ≡ returns (pos 0)) × ((mtk_op blob stack userial_open param w).0 ≡ null_call)
  unfolding mtk_init mtk_op mtk_open
  missing_library param v absent unset = rw absent (refl, rw (unset, mtk_open))

  -- When the library opens for the first time but lacks one of the two functions, `init` closes it
  -- and still returns 0, and `USERIAL_OPEN` does not return: its function is missing or unloaded.
  pub missing_symbol :
      (handle : ℕ) (param : Memory) (v : Vendor)
      → blob.library v.loads ≡ some handle
      → refs handle v.events ≡ 0
      → blob.has_enable handle && blob.has_disable handle ≡ false
      → let (outcome, w) = mtk_init blob stack true v in
        (outcome ≡ returns (pos 0)) × (¬ Returns (mtk_op blob stack userial_open param w).0)
  unfolding mtk_init mtk_op mtk_open refs
  missing_symbol handle param v found unloaded lacks = ground arith

  -- `cleanup` gives back the load of the `init` before it, and takes the callbacks away.
  pub cleanup-init :
      (handle : ℕ) (v : Vendor)
      → blob.library v.loads ≡ some handle
      → blob.has_enable handle ≡ true
      → blob.has_disable handle ≡ true
      → let w = mtk_cleanup blob (mtk_init blob stack true v).1 in
        (refs handle w.events ≡ refs handle v.events) × (w.has_cbacks ≡ false)
  unfolding mtk_init mtk_cleanup refs
  cleanup-init handle v found e d = rw found (ground arith)

  -- `cleanup` leaves the handle and the two function pointers set: a second `cleanup` closes the
  -- library once more, and where it was loaded once, `USERIAL_OPEN` calls into unloaded code.
  pub after_cleanup :
      (handle : ℕ) (param : Memory) (v : Vendor)
      → IsReady handle v
      → refs handle v.events ≡ 1
      → let w = mtk_cleanup blob v in
        ((mtk_cleanup blob w).events ≡ unload handle ∷ unload handle ∷ v.events)
        × ((mtk_op blob stack userial_open param w).0 ≡ unloaded_call)
  unfolding mtk_cleanup mtk_op mtk_open refs
  after_cleanup handle param v h once = ground arith
