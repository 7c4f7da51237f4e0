-- ===== src/Text.antt =====
-- Text as lists of character codes: decimal numbers as `printf` writes them, and separators.
pub mod Decimal
pub mod Separated
pub mod Search
