-- ===== src/Router.antt =====
-- typeway-server/src/router.rs: registration and resolution of routes. `Matchit` is the trie crate as
-- an interface; `Method`, `Pattern`, `Prefix` and `Table` hold the functions of the source; the other
-- modules are proofs.
pub mod Matchit
pub mod Method
pub mod Pattern
pub mod Prefix
pub mod Table
pub mod Request
mod Tests
