-- ===== src/Kerl.antt =====
-- kerl: the numbers of 384 bits between trits and bytes.
pub mod Bigint
pub mod Convert
pub mod Hash
pub mod Absorbs
pub mod Lengths
pub mod Errors
pub mod Squeezes
pub mod Examples
