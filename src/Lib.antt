-- ===== src/Lib.antt =====
-- Device support of the Gionee P4, a phone on MediaTek's MT6582: the programs of the device
-- tree that carry logic of their own.
--
-- Parts, and how they interact
--   * liblight/lights.c is the lights HAL. The framework opens a light by its name and calls its
--     `set_light`; battery, notifications and attention share one RGB LED, which shows the most
--     important light that is on. It writes the LED's and the backlight's files in sysfs.
--   * libbt-vendor-mtk/libbt-vendor-mtk.c is the vendor interface of the Bluetooth stack. It loads
--     MTK's library, looks up two functions in it, and answers the stack's opcodes with them.
--   * wpa_supplicant_8_lib/mediatek_driver_cmd_nl80211.c, with mediatek_driver_nl80211.h, is the
--     driver part of wpa_supplicant: it reads text commands, sends test-mode messages to the Wi-Fi
--     chip, decodes the attributes that come back, and prints them into the caller's buffer.
--   * audio/audio.cpp is the audio HAL: it loads MTK's library and passes each open on to it.
--   * ril/telephony/java/com/android/internal/telephony/MediaTekRIL.java stands between the modem
--     and Android's RIL class: it gives the modem's own responses Android's codes, decodes the
--     names of networks, and gives each request that waits its answer.
--   * libxlog has functions that MTK's libraries link against: xlog.c hands log lines on, and the
--     methods of mtkaudio.cpp do nothing.
--   The programs share no state.
--
-- Which file models what
--   Common           lists, tests on numbers, C's `int` as a signed integer, and stateful code as
--                    functions from a state to a result and the next state.
--   Format           the conversions of the `printf` family, and what `snprintf` stores.
--   Sysfs            `write_int` and `write_on_off` of liblight/lights.c: the files' texts, the
--                    kernel's answers, and the two warn-once flags.
--   Lights           the rest of liblight/lights.c: `set_light_backlight`, `set_light_buttons`,
--                    `write_leds_locked`, `set_light_locked` and its callers. Lights/Device has
--                    `open_lights` and `close_lights`. Lights/Code has the same calls access by
--                    access, and Lights/Threads the framework's threads that make them at once.
--   Bluetooth        libbt-vendor-mtk/libbt-vendor-mtk.c: `mtk_init`, `mtk_cleanup`, `mtk_open`,
--                    `mtk_close` and `mtk_op`.
--   Wifi/Netlink     what the Wi-Fi code takes from libnl.
--   Wifi/Statistics  `testmode_sta_statistics_handler`, and the structure and attributes of
--                    mediatek_driver_nl80211.h that it goes between.
--   Wifi/LinkDetect  `testmode_sta_link_detect_handler` and the report on the link statistics.
--   Wifi/Beam        `testmode_beamplus_go_ready_handler`.
--   Wifi/Printer     the loop of `os_snprintf` and early returns that both reports are.
--   Wifi/Print       `print_sta_statistics`.
--   Wifi/TestMode    `wpa_driver_nl80211_testmode` and the functions that fill its structures;
--                    Wifi/TestMode/Wapi has those of CONFIG_WAPI_SUPPORT.
--   Wifi/Strings     the C library's string functions that the commands use.
--   Wifi/Parse       the chain of tests of `wpa_driver_nl80211_driver_cmd`.
--   Wifi/Driver      the state of the commands, the set_country, start, stop and MACADDR branches;
--                    Wifi/Driver/Commands and Wifi/Driver/Dispatch have the other branches and
--                    `wpa_driver_nl80211_driver_cmd` itself; Wifi/Driver/Buffer, Branches and
--                    Replies are about the caller's buffer.
--   Wifi/Interface   the P2P operations, and sequences of them and of commands.
--   Audio            `legacy_adev_open` of audio/audio.cpp.
--   Ril              `processUnsolicited`, `setCallIndication` and `setRadioStateFromRILInt` of
--                    MediaTekRIL.java; Ril/Hex has its `hexStringToBytes`, Ril/Operator
--                    `responseOperator` and `responseOperatorInfos`, Ril/Solicited
--                    `processSolicited`, with the cases of its `switch` in Ril/Cases, and
--                    Ril/Commands the commands that the platform calls.
--   Xlog             libxlog/xlog.c; Xlog/Stubs has the methods of libxlog/mtkaudio.cpp.
--   Below each of these stand the modules of its lemmas, named for what they are about, and Tests.
--
-- How state and operations correspond
--   Each static variable of a program is a field of that program's record (`Lights`, `Vendor`,
--   `Driver`), together with what it did to the outside: the contents of the files, the loader's
--   and the stack's events, the messages sent, the buffer filled. An operation is a function on the
--   record. A call in liblight/lights.c holds one mutex from its first access to its last: `run`
--   takes each call as one step, in the order in which they get the lock, while Lights/Threads has
--   the mutex, and steps that are one access of one thread. What C leaves
--   undefined (a null or unloaded function called, an uninitialised pointer read, a write past
--   an array or past the caller's memory) is an outcome of its own (`null_call`, `unloaded_call`,
--   `overrun`, `undefined`). One byte read past an array, for an argument that no text uses, is
--   counted in the field `overreads`.
--
-- Parameters, for code that is not in the repository
--   The kernel's answers to each write; the loader, and the two functions of MTK's library; the
--   constants of the stack's headers; libnl's attributes; the numbers of
--   CONFIG_MEDIATEK_WIFI_BEAM's attributes; wpa_supplicant's `hwaddr_aton`, `MACSTR`,
--   `linux_set_iface_flags` and message exchange; the sizes of the structures and of
--   their fields; what the caller's buffer holds when it is read as a WAPI structure; the names of the
--   lights; the answer of `malloc`; what the stack holds in an uninitialised local variable;
--   and `android.os.Parcel`, the response readers of Android's RIL class, its codes and its list of
--   requests, Java's UTF-16 decoder, and the table of the operators' names.
--
-- Bounds and fuel
--   `digits` has fuel for twenty digits; a number below 2^64 has at most twenty, in base 10 as in
--   base 16. All other recursion is on lists or on the loops' counters. Words wrap around where
--   the source computes in 32 or 64 bits, and are written `% 2 ^ w`; a `long` has 32 bits.
--
-- Not modelled
--   The fairness of the mutex; the constant fields of the HALs' device and module records; the log.
--   The NUL that some commands write over a blank of the caller's text, which they do not read
--   again. The functions of libxlog/xlog.c that do nothing, and the configuration.
pub mod Common
pub mod Format
pub mod Sysfs
pub mod Lights
pub mod Bluetooth
pub mod Wifi
pub mod Audio
pub mod Ril
pub mod Xlog
