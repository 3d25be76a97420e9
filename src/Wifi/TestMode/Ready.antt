-- ===== src/Wifi/TestMode/Ready.antt =====
-- What `wpa_driver_nl80211_testmode` of mediatek_driver_cmd_nl80211.c leaves of the messages that
-- answer a structure of CONFIG_MEDIATEK_WIFI_BEAM.
use Prim.Native.Nat.{bit_and}
use android_device_gionee_p.Common.{
  ℕ, suc, ◌<◌, ◌≡◌, refl, ◌∙◌, ap, List, [], ◌∷◌, Option, none, some, true,
}
use android_device_gionee_p.Common.Int.{ℤ}
use android_device_gionee_p.Wifi.Netlink.{Bytes, Netlink}
use android_device_gionee_p.Wifi.Beam.{GoReady}
use android_device_gionee_p.Wifi.Beam.Announced.{or_kept, announced, handled}
use android_device_gionee_p.Wifi.TestMode.{
  Config, Header, set_beamplus, Radio, exchanged, go_ready_handler, handler_for, handle, handle_all,
  on_answer, testmode, bits,
}

or_kept-last :
    (o p : Option ℕ) (v : ℕ)
    → or_kept p (or_kept o v) ≡ or_kept (elim p [ some w ↦ some w | none ↦ o ]) v
or_kept-last o none v = refl
or_kept-last o (some w) v = refl

module _ (nl : Netlink) (attrs : GoReady) where
  -- The last one of some messages.
  abbrev pub last_announced : List Bytes → Option ℕ
  last_announced [] = none
  last_announced (msg ∷ msgs) = elim (last_announced msgs) [
    | some v ↦ some v
    | none ↦ announced nl attrs msg
  ]

  module _ (low : 0 < attrs.go_ready_state) (high : attrs.go_ready_state < attrs.go_ready_num) where
    handle_all-last :
        (msgs : List Bytes) (r : Radio)
        → handle_all nl (go_ready_handler attrs) msgs r
          ≡ record r { go_ready = or_kept (last_announced msgs) r.go_ready }
    unfolding handle_all handle
    handle_all-last [] r = refl
    handle_all-last (msg ∷ msgs) r =
        handle_all-last msgs (handle nl (go_ready_handler attrs) msg r)
        ∙ ap (λ (v : ℕ). record r { go_ready = v })
            (ap (or_kept (last_announced msgs)) (handled nl attrs low high msg r.go_ready)
              ∙ or_kept-last (announced nl attrs msg) (last_announced msgs) r.go_ready)

-- A structure of CONFIG_MEDIATEK_WIFI_BEAM, in a build with it, whose index without the version
-- byte is 0x12, when the exchange succeeds or fails with whatever result, and the attribute's
-- number is one that the loop comes to: the result is that of the exchange, the structure is
-- sent, its `value` becomes the state in the last message that has one, or stays what it was when
-- none has, and nothing else of the radio changes.
pub testmode_go_ready_lem :
    (nl : Netlink) (config : Config) (h : Header) (r : Radio) (result : ℤ) (msgs : List Bytes)
    → config.beam ≡ true
    → bit_and h.index (bits 0 23) ≡ 0x12
    → 0 < config.go_ready_attrs.go_ready_state
    → config.go_ready_attrs.go_ready_state < config.go_ready_attrs.go_ready_num
    → r.answer r.attempts ≡ exchanged result msgs
    → testmode nl config (set_beamplus h) r ≡ (
      result,
      record r {
        attempts = suc r.attempts;
        sent = set_beamplus h ∷ r.sent;
        go_ready = or_kept (last_announced nl config.go_ready_attrs msgs) r.go_ready;
      },
    )
unfolding testmode on_answer handler_for
testmode_go_ready_lem nl config h r result msgs built index low high e =
    rw (e, on_answer)
      (rw (index, handler_for)
        (rw built (
          ap (λ (q : Radio). (result, q))
            (handle_all-last nl config.go_ready_attrs low high msgs
              (record r { attempts = suc r.attempts; sent = set_beamplus h ∷ r.sent })))))
