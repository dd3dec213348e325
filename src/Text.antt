-- ===== src/Text.antt =====
-- src/terminal_text.c: UTF-8 validation and the filters for text that reaches a terminal.
pub mod Utf8
pub mod Sanitize
