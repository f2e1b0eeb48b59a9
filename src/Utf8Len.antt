-- ===== src/Utf8Len.antt =====
-- utf8-len.c: the number of characters of a UTF-8 text, by tests and by a table.
mod Defs
mod Chars
mod Examples
