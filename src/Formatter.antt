-- ===== src/Formatter.antt =====
-- mort/formatter.py: the formatter. Text has the methods of str that it uses, Braces is `_brace_delta`,
-- Format is `format_source`, and Content shows what the formatter keeps.
pub mod Text
pub mod Braces
pub mod Format
mod Lines
mod Strip
mod Content
mod Idempotent
mod Pop
mod Layout
mod Tests
