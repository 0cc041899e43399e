-- ===== src/Utils.antt =====
-- src/utils.c, the freestanding C library of the kernel.
pub mod Memory
pub mod Move
pub mod Strings
pub mod Concat
pub mod Substring
pub mod Convert
pub mod Reversal
pub mod Decimal
pub mod Numbers
pub mod Powers
mod Tests
