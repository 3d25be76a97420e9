-- ===== src/Wifi/Beam.antt =====
-- The state of the group owner, under CONFIG_MEDIATEK_WIFI_BEAM:
-- `testmode_beamplus_go_ready_handler` of mediatek_driver_cmd_nl80211.c. Its attributes are
-- numbered in a header that is not in the repository.
pub mod Announced
use android_device_gionee_p.Common.{
  ◌<◌, ◌^◌, ℕ, zero, suc, ◌-◌, Option, none, some, ◌==◌, if◌then◌else◌,
}
use android_device_gionee_p.Common.Int.{ℤ}
use android_device_gionee_p.Common.State.{State}
use android_device_gionee_p.Wifi.Netlink.{Bytes, Attr, Table, Netlink}

-- `NL80211_TESTMODE_GO_READY_NUM`, `_MAX` and `_STATE`. The loop counts in an `unsigned char`, and
-- ends only where `NUM` is one too.
pub record GoReady : Type 0 where
  pub go_ready_num : ℕ
  pub go_ready_max : ℕ
  pub go_ready_state : ℕ
  pub num_fits : go_ready_num < 2 ^ 8

module _ (nl : Netlink) (attrs : GoReady) where
  -- `if (sinfo[i]) switch (i)`
  pub visit : ℕ → Option Attr → ℕ → ℕ
  visit i none go_ready = go_ready
  visit i (some a) go_ready = if i == attrs.go_ready_state then nl.nla_get_u32 a else go_ready

  -- `for (; i < NL80211_TESTMODE_GO_READY_NUM; i++)` with `left` rounds to go.
  pub visit_all : ℕ → ℕ → Table → ℕ → ℕ
  unfolding visit
  visit_all zero i sinfo go_ready = go_ready
  visit_all (suc left) i sinfo go_ready = visit_all left (suc i) sinfo (visit i (sinfo i) go_ready)

  pub visit_table : Option Table → ℕ → ℕ
  unfolding visit_all
  visit_table none go_ready = go_ready
  visit_table (some sinfo) go_ready = visit_all (attrs.go_ready_num - 1) 1 sinfo go_ready

  pub visit_testdata : Option Attr → ℕ → ℕ
  unfolding visit_table
  visit_testdata none go_ready = go_ready
  visit_testdata (some a) go_ready = visit_table (nl.parse_nested attrs.go_ready_max a) go_ready

  unfoldable pub testmode_beamplus_go_ready_handler : Bytes → State ℕ ℤ
  unfolding visit_testdata
  testmode_beamplus_go_ready_handler msg go_ready =
      (nl.nl_skip, visit_testdata (nl.testdata msg) go_ready)
