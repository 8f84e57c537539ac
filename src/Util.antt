-- ===== src/Util.antt =====
-- src/util.c: hexadecimal text, byte order, variable-length integers and C strings.
pub mod Hex
pub mod Reverse
pub mod Varint
pub mod Text
mod Tests
