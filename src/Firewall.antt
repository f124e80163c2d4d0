-- ===== src/Firewall.antt =====
-- packages/gargoyle/gargoyle-firewall-util/src/make_iptables_rules.c: the iptables commands for a section of the
-- configuration.
pub mod Text
pub mod Quoted
pub mod Definitions
pub mod Options
pub mod Rules
pub mod Checks
pub mod Matching
pub mod Generate
pub mod Commands
pub mod RuleLaws
pub mod Dimensions
pub mod Groups
pub mod Grouping
pub mod GroupedRules
pub mod MarkLaws
pub mod QuotedLaws
pub mod OptionLaws
mod Examples
