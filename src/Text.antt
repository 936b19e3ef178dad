-- ===== src/Text.antt =====
-- Blocks of bytes and strings: pintos/src/lib/string.c.
pub mod Block
pub mod Scan
pub mod Copy
pub mod Token
