-- ===== src/Lmo.antt =====
-- luci/libs/lmo/src: the string utilities of the LuCI template engine and its translation catalogs.
pub mod Buffer
pub mod BufferLaws
pub mod Utf8
pub mod Text
pub mod Sequences
pub mod Texts
pub mod Copies
pub mod RoundTrip
pub mod Utf8Laws
pub mod Catalog
pub mod Search
pub mod Hash
pub mod Canon
pub mod Translate
pub mod Ascending
pub mod Markup
pub mod Pcdata
pub mod LuaString
mod Samples
mod MarkupSamples
mod Examples
