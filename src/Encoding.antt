-- ===== src/Encoding.antt =====
-- Texts as the program writes and reads them: base64url, decimal numbers, hexadecimal bytes and the
-- operations of package strings.
pub mod Base64
pub mod Decimal
pub mod Hex
pub mod Words
