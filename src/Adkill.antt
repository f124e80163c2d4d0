-- ===== src/Adkill.antt =====
-- packages/adkill/src/strcmd.c and advhash.c: the string tests of the advertisement filter, and the hash
-- table of the hosts.
pub mod Strings
pub mod Digits
pub mod Hosts
pub mod HostLaws
mod Examples
mod HostExamples
