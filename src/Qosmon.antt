-- ===== src/Qosmon.antt =====
-- packages/gargoyle/qos-gargoyle/src/qosmon.c: the monitor that adjusts the limit of a link to its
-- ping times.
pub mod Ping
pub mod Checksum
pub mod Classes
pub mod Machine
pub mod Measured
pub mod Limits
pub mod Startup
pub mod Loop
mod Examples
