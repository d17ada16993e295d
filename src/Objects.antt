-- ===== src/Objects.antt =====
-- The objects that requests are answered with.
pub mod Ports
pub mod DeviceConfigs
pub mod Bgp
pub mod Lte
pub mod Dump
pub mod Bodies
