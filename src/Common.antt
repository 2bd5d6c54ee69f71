-- ===== src/Common.antt =====
-- common/: the domain exceptions, and the numbers of the runtime.
pub mod Exceptions
pub mod Number
