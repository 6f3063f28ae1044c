-- ===== src/Trinary.antt =====
-- trinary/trinary.go: trits and trytes, their checks, conversions and arithmetic.
pub mod Trits
pub mod Tryte
pub mod Convert
pub mod Value
pub mod Number
pub mod Reverse
pub mod Adder
pub mod Examples
