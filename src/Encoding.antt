-- ===== src/Encoding.antt =====
-- encoding: bytes as trits and trytes, and trits as bytes.
pub mod B1t6
pub mod T5b1
pub mod Ascii
pub mod Examples
