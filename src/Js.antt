-- ===== src/Js.antt =====
-- What the program uses of its language: texts, numerals and `BigInt`.
pub mod Text
pub mod BigInt
pub mod Bits
pub mod Json
pub mod Numerals
pub mod Hex
