-- ===== src/Wifi/Beam/Announced.antt =====
-- The state that `testmode_beamplus_go_ready_handler` of mediatek_driver_cmd_nl80211.c stores.
use native.Mathlib.Decide.{ℕ_discrete}
use mathlib.Core.Option
use android_device_gionee_p.Common.{
  ℕ, zero, suc, ◌+◌, ◌-◌, ◌<◌, ◌≤◌, ◌≡◌, ◌≢◌, refl, ◌∙◌, ap, Option, none, some, arith,
}
use android_device_gionee_p.Wifi.Netlink.{Bytes, Attr, Table, Netlink}
use android_device_gionee_p.Wifi.Beam.{
  GoReady, visit, visit_all, visit_table, visit_testdata, testmode_beamplus_go_ready_handler,
}

-- What is left where nothing is stored.
abbrev pub or_kept : Option ℕ → ℕ → ℕ
or_kept none v = v
or_kept (some u) v = u

module _ (nl : Netlink) (attrs : GoReady) where
  abbrev pub state_of : Option Table → Option ℕ
  state_of none = none
  state_of (some sinfo) = Option.map nl.nla_get_u32 (sinfo attrs.go_ready_state)

  abbrev pub state_in : Option Attr → Option ℕ
  state_in none = none
  state_in (some a) = state_of (nl.parse_nested attrs.go_ready_max a)

  -- The state that a message announces, when it has one.
  abbrev pub announced : Bytes → Option ℕ
  announced msg = state_in (nl.testdata msg)

  visit-state :
      (i : ℕ) (o : Option Attr) (v : ℕ)
      → i ≡ attrs.go_ready_state
      → visit nl attrs i o v ≡ or_kept (Option.map nl.nla_get_u32 o) v
  unfolding visit
  visit-state i none v e = refl
  visit-state i (some a) v e = ground (arith, e)

  visit-other :
      (i : ℕ) (o : Option Attr) (v : ℕ) → i ≢ attrs.go_ready_state → visit nl attrs i o v ≡ v
  unfolding visit
  visit-other i none v ne = refl
  visit-other i (some a) v ne = ground (arith, ne)

  -- Behind the state's number nothing is stored.
  visit_all-behind :
      (left i : ℕ) (sinfo : Table) (v : ℕ)
      → attrs.go_ready_state < i
      → visit_all nl attrs left i sinfo v ≡ v
  unfolding visit_all
  visit_all-behind zero i sinfo v h = refl
  visit_all-behind (suc left) i sinfo v h =
      visit_all-behind left (suc i) sinfo _ (omega arith) ∙ visit-other i (sinfo i) v (omega arith)

  visit_all-state :
      (left i : ℕ) (sinfo : Table) (v : ℕ)
      → i ≤ attrs.go_ready_state
      → attrs.go_ready_state < i + left
      → visit_all nl attrs left i sinfo v
        ≡ or_kept (Option.map nl.nla_get_u32 (sinfo attrs.go_ready_state)) v
  unfolding visit_all
  visit_all-state zero i sinfo v h k = absurd (let no_way : ⊥ = omega arith in no_way)
  visit_all-state (suc left) i sinfo v h k = elim (ℕ_discrete i attrs.go_ready_state) [
    | yes e ↦
        visit_all-behind left (suc i) sinfo _ (omega arith)
        ∙ visit-state i (sinfo i) v e
        ∙ ap (λ (n : ℕ). or_kept (Option.map nl.nla_get_u32 (sinfo n)) v) e
    | no ne ↦
        ap (λ (w : ℕ). visit_all nl attrs left (suc i) sinfo w) (visit-other i (sinfo i) v ne)
        ∙ visit_all-state left (suc i) sinfo v (omega arith) (omega arith)
  ]

  module _ (low : 0 < attrs.go_ready_state) (high : attrs.go_ready_state < attrs.go_ready_num) where
    visit_table-state :
        (o : Option Table) (v : ℕ) → visit_table nl attrs o v ≡ or_kept (state_of o) v
    unfolding visit_table
    visit_table-state none v = refl
    visit_table-state (some sinfo) v =
        visit_all-state (attrs.go_ready_num - 1) 1 sinfo v (omega arith) (omega arith)

    visit_testdata-state :
        (o : Option Attr) (v : ℕ) → visit_testdata nl attrs o v ≡ or_kept (state_in o) v
    unfolding visit_testdata
    visit_testdata-state none v = refl
    visit_testdata-state (some a) v = visit_table-state (nl.parse_nested attrs.go_ready_max a) v

    pub handled :
        (msg : Bytes) (v : ℕ)
        → (testmode_beamplus_go_ready_handler nl attrs msg v).1 ≡ or_kept (announced msg) v
    unfolding testmode_beamplus_go_ready_handler
    handled msg v = visit_testdata-state (nl.testdata msg) v
