-- ===== src/StringEncode.antt =====
-- src/string_encode.cpp: hexadecimal text and its decoding, and splitting at a delimiter.
-- A char is the number of its byte; the tests of the code give the same answer for a signed char.
pub mod Hex
pub mod Split
