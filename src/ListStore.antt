-- ===== src/ListStore.antt =====
-- packages/gargoyle/libericstools/src/list.c: a doubly linked list whose nodes are in a store.
pub mod Store
pub mod Nodes
pub mod Links
pub mod Relink
pub mod Removal
pub mod Ends
pub mod Client
pub mod Reading
pub mod ReadingLaws
mod Examples
