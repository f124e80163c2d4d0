-- ===== src/StringUtil.antt =====
-- packages/gargoyle/libericstools/src/string_util.c: operations on C strings and on arrays of them.
pub mod Strings
pub mod Splitting
pub mod SplitLaws
pub mod RoundTrip
pub mod Trim
pub mod Replacing
pub mod ReplaceLaws
pub mod Reading
pub mod ReadLaws
mod Examples
