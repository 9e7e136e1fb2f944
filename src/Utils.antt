-- ===== src/Utils.antt =====
-- src/recoverx/core/utils: the raw reader that every parser reads through.
pub mod RawReader
pub mod Unpack
pub mod Text
pub mod Dict
