-- ===== src/Ownership.antt =====
-- rvalue_reference/: classes that own heap blocks through a raw pointer.
pub mod Blocks
pub mod Text
pub mod Lifetime
pub mod Holder
pub mod Scope
mod Tests
