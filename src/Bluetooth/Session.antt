-- ===== src/Bluetooth/Session.antt =====
-- The vendor interface of libbt-vendor-mtk.c in use: what each operation does between an `init`
-- that found the whole blob and the `cleanup`.
use android_device_gionee_p.Common.{
  ℕ, zero, suc, ◌+◌, ◌<◌, ◌≤◌, ◌≡◌, inl, inr, refl, ◌∙◌, List, [], ◌∷◌, true, ◌&&◌, some, ltb, leb,
  ◌==◌, if◌then◌else◌, set, get_or, length, arith, Bool-cases, length-set, get_or-set_self,
  get_or-set_ne,
}
use android_device_gionee_p.Common.Int.{ℤ, pos, negsuc, ltb_ℤ}
use android_device_gionee_p.Bluetooth.{
  Blob, Stack, enabled, disabled, Vendor, Outcome, returns, refs, Memory, mtk_init, fill, mtk_open,
  mtk_close, Opcode, userial_open, userial_close, get_lpm_idle_timeout, mtk_op, load_library,
  look_up,
}

-- The library is loaded, both its functions were found behind it, and the stack's callbacks are
-- set.
pub record IsReady (handle : ℕ) (v : Vendor) : Type 0 where
  pub handle_set : v.mtklib_handle ≡ some handle
  pub enable_set : v.mtk_bt_enable ≡ some handle
  pub disable_set : v.mtk_bt_disable ≡ some handle
  pub loaded : 0 < refs handle v.events
  pub cbacks_set : v.has_cbacks ≡ true

abbrev pub Returns : Outcome → Type 0
Returns (returns result) = Unit {0}
Returns _ = ⊥

length-fill :
    (left idx : ℕ) (fd : ℤ) (param : Memory) → length (fill left idx fd param) ≡ length param
unfolding fill
length-fill zero idx fd param = refl
length-fill (suc left) idx fd param =
    length-fill left (suc idx) fd (set param idx fd) ∙ length-set param idx fd

get_or-set :
    (param : Memory) (idx : ℕ) (fd d : ℤ) (i : ℕ)
    → idx < length param
    → get_or (set param idx fd) i d ≡ (if idx == i then fd else get_or param i d)
get_or-set param idx fd d i h = elim (Bool-cases (idx == i)) [
  | inl same ↦
      let e : idx ≡ i = ground arith in rw same (rw (← e) (get_or-set_self param idx fd d h))
  | inr other ↦ rw other (get_or-set_ne param idx i fd d (λ e. ground arith))
]

-- The loop writes the channels from `idx` on, and no other word.
get_or-fill :
    (left idx : ℕ) (fd : ℤ) (param : Memory) (i : ℕ)
    → idx + left ≤ length param
    → get_or (fill left idx fd param) i (pos 0)
      ≡ (if leb idx i && ltb i (idx + left) then fd else get_or param i (pos 0))
unfolding fill
get_or-fill zero idx fd param i h = ground arith
get_or-fill (suc left) idx fd param i h = ground (
  arith,
  get_or-fill left (suc idx) fd (set param idx fd) i (omega (arith, length-set param idx fd)),
  get_or-set param idx fd (pos 0) i (omega arith),
)

module _ (blob : Blob) (stack : Stack) where
  -- When the blob is there with both its functions, `init` with callbacks returns 0 and leaves the
  -- interface ready for every operation.
  pub mtk_init-IsReady :
      (handle : ℕ) (v : Vendor)
      → blob.library v.loads ≡ some handle
      → blob.has_enable handle ≡ true
      → blob.has_disable handle ≡ true
      → ((mtk_init blob stack true v).0 ≡ returns (pos 0))
        × IsReady handle (mtk_init blob stack true v).1
  unfolding mtk_init load_library look_up refs
  mtk_init-IsReady handle v found e d = rw found (ground arith)

  -- What an operation writes to is there: the channels of `USERIAL_OPEN`, and the one word of
  -- `GET_LPM_IDLE_TIMEOUT`.
  abbrev pub HasRoom : Opcode → Memory → Type 0
  HasRoom userial_open param = stack.ch_max ≤ length param
  HasRoom get_lpm_idle_timeout param = 0 < length param
  HasRoom _ param = Unit {0}

  -- Between `init` and `cleanup` every operation with room for what it writes returns, and the
  -- interface stays ready.
  pub mtk_op-IsReady :
      (handle : ℕ) (opcode : Opcode) (param : Memory) (v : Vendor)
      → IsReady handle v
      → HasRoom opcode param
      → Returns (mtk_op blob stack opcode param v).0
        × IsReady handle (mtk_op blob stack opcode param v).2
  unfolding mtk_op mtk_open mtk_close refs
  mtk_op-IsReady handle userial_open param v h room = ground arith
  mtk_op-IsReady handle get_lpm_idle_timeout [] v h room = absurd (omega (arith, room))
  mtk_op-IsReady handle get_lpm_idle_timeout (word ∷ words) v h room = (tt, h)
  mtk_op-IsReady handle opcode param v h room = ground arith

  -- The requests of the stack, each with the memory that it points to.
  pub run : List (Opcode × Memory) → Vendor → List Outcome × Vendor
  run [] v = ([], v)
  run ((opcode, param) ∷ rest) v =
      let (outcome, param', v') = mtk_op blob stack opcode param v in
      let (outcomes, last) = run rest v' in (outcome ∷ outcomes, last)

  abbrev pub AllReturn : List Outcome → Type 0
  AllReturn [] = Unit {0}
  AllReturn (outcome ∷ outcomes) = Returns outcome × AllReturn outcomes

  abbrev pub AllHaveRoom : List (Opcode × Memory) → Type 0
  AllHaveRoom [] = Unit {0}
  AllHaveRoom ((opcode, param) ∷ rest) = HasRoom opcode param × AllHaveRoom rest

  -- So through any operations, in any order, every one of them returns.
  pub run-IsReady :
      (handle : ℕ) (requests : List (Opcode × Memory)) (v : Vendor)
      → IsReady handle v
      → AllHaveRoom requests
      → AllReturn (run requests v).0 × IsReady handle (run requests v).1
  unfolding run
  run-IsReady handle [] v h rooms = (tt, h)
  run-IsReady handle ((opcode, param) ∷ rest) v h (room, rooms) =
      let (returned, ready) = mtk_op-IsReady handle opcode param v h room in
      let (others, last) =
        run-IsReady handle rest (mtk_op blob stack opcode param v).2 ready rooms in
      ((returned, others), last)

  -- When the blob is there with both its functions, `init` with callbacks returns 0, and behind
  -- it any operations, in any order, all return, if each `USERIAL_OPEN` is given room for all the
  -- channels and each `GET_LPM_IDLE_TIMEOUT` room for a word.
  pub run-mtk_init :
      (handle : ℕ) (requests : List (Opcode × Memory)) (v : Vendor)
      → blob.library v.loads ≡ some handle
      → blob.has_enable handle ≡ true
      → blob.has_disable handle ≡ true
      → AllHaveRoom requests
      → ((mtk_init blob stack true v).0 ≡ returns (pos 0))
        × AllReturn (run requests (mtk_init blob stack true v).1).0
  run-mtk_init handle requests v found e d rooms =
      let (zero_result, ready) = mtk_init-IsReady handle v found e d in
      (zero_result, (run-IsReady handle requests (mtk_init blob stack true v).1 ready rooms).0)

  opened :
      (handle fd : ℕ) (param : Memory) (v : Vendor)
      → IsReady handle v
      → blob.enable v.enables ≡ pos fd
      → stack.ch_max ≤ length param
      → mtk_op blob stack userial_open param v ≡ (
        returns (pos 1),
        fill stack.ch_max 0 (pos fd) param,
        record v { enables = suc v.enables; events = enabled ∷ v.events; hci_tty_fd = pos fd },
      )
  unfolding mtk_op mtk_open
  opened handle fd param v h gives room = ground arith

  -- `USERIAL_OPEN` on a ready interface whose stack gives room for all channels, when the blob
  -- gives the descriptor `fd`: it returns 1, every channel holds `fd`, the words behind the
  -- channels keep their values, and `fd` is remembered for closing.
  pub userial_open_lem :
      (handle fd : ℕ) (param : Memory) (v : Vendor)
      → IsReady handle v
      → blob.enable v.enables ≡ pos fd
      → stack.ch_max ≤ length param
      → let (outcome, param', v') = mtk_op blob stack userial_open param v in
        (outcome ≡ returns (pos 1))
        × ((i : ℕ)
            → get_or param' i (pos 0)
              ≡ (if ltb i stack.ch_max then pos fd else get_or param i (pos 0)))
        × (length param' ≡ length param)
        × (v'.hci_tty_fd ≡ pos fd)
  userial_open_lem handle fd param v h gives room = rw (opened handle fd param v h gives room) (
    refl,
    λ i. get_or-fill stack.ch_max 0 (pos fd) param i (omega arith) ∙ ground arith,
    length-fill stack.ch_max 0 (pos fd) param,
    refl,
  )

  -- When the blob gives no descriptor, `USERIAL_OPEN` returns -1, writes no channel and remembers
  -- nothing new.
  pub userial_open_fails :
      (handle : ℕ) (param : Memory) (v : Vendor)
      → IsReady handle v
      → ltb_ℤ (blob.enable v.enables) (pos 0) ≡ true
      → let (outcome, param', v') = mtk_op blob stack userial_open param v in
        (outcome ≡ returns (negsuc 0)) × (param' ≡ param) × (v'.hci_tty_fd ≡ v.hci_tty_fd)
  unfolding mtk_op mtk_open
  userial_open_fails handle param v h fails = ground arith

  -- `USERIAL_CLOSE` after a successful `USERIAL_OPEN` with room for all channels hands the blob the descriptor that the
  -- channels got, and returns what the blob returns.
  pub close-open :
      (handle fd : ℕ) (param param' : Memory) (v : Vendor)
      → IsReady handle v
      → blob.enable v.enables ≡ pos fd
      → stack.ch_max ≤ length param
      → let w = (mtk_op blob stack userial_open param v).2 in
        let (outcome, after, v') = mtk_op blob stack userial_close param' w in
        (outcome ≡ returns (blob.disable (pos fd)))
        × (after ≡ param')
        × (v'.events ≡ disabled (pos fd) ∷ enabled ∷ v.events)
  unfolding mtk_op mtk_open mtk_close refs
  close-open handle fd param param' v h gives room = ground arith

  -- `USERIAL_CLOSE` with no descriptor remembered returns -1 and calls nothing.
  pub close_unopened :
      (param : Memory) (v : Vendor)
      → v.hci_tty_fd ≡ negsuc 0
      → mtk_op blob stack userial_close param v ≡ (returns (negsuc 0), param, v)
  unfolding mtk_op mtk_close
  close_unopened param v h = ground arith
