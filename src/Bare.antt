-- ===== src/Bare.antt =====
-- bare/: the sample server, a router over modules, of which there is one.
pub mod Answer
pub mod Contexts
pub mod Faults
pub mod Laws
pub mod Main
pub mod Memory
pub mod Router
mod Tests
pub mod Welcome
