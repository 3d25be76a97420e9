-- ===== src/Wifi.antt =====
-- wpa_supplicant_8_lib: the driver commands of MTK's Wi-Fi chips for wpa_supplicant.
pub mod Netlink
pub mod Statistics
pub mod LinkDetect
pub mod Beam
pub mod Printer
pub mod Print
pub mod Strings
pub mod TestMode
pub mod Parse
pub mod Driver
pub mod Interface
mod Tests
