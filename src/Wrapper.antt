-- ===== src/Wrapper.antt =====
-- The C++ wrapper: coseqpp/. Wrapper/Source.antt is what a C++ sequence sees of a reply (`result`,
-- `source`), Wrapper/Iface.antt the methods of `iface`, Wrapper/Manager.antt `module_base` and
-- `manager`.
pub mod Source
pub mod Iface
pub mod Manager
pub mod Tables
pub mod Laws
mod Tests
