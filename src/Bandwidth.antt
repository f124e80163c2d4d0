-- ===== src/Bandwidth.antt =====
-- packages/gargoyle/libiptbwctl/src/ipt_bwctl.c: the bandwidth histories, in files and in the buffers that
-- are exchanged with the kernel.
pub mod Layout
pub mod Files
pub mod FileLaws
pub mod Blocks
pub mod BlockLaws
mod Examples
pub mod Responses
pub mod ResponseLaws
pub mod Intervals
pub mod Calendar
pub mod IntervalLaws
pub mod Usage
pub mod UsageLaws
