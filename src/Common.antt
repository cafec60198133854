-- ===== src/Common.antt =====
-- common/enums and common/constants: the enumerations that several modules share.
pub mod Enums
