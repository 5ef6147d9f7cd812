-- ===== src/Config.antt =====
-- pkg/config: the settings of the driver.
pub mod Resources
pub mod Patches
pub mod Attr
pub mod Cache
pub mod Parsing
pub mod AppInfo
pub mod FormatOptions
