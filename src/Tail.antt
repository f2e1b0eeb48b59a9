-- ===== src/Tail.antt =====
-- tlpi/tail.c: the last lines of a file, found in one pass with a ring of line starts.
mod Defs
mod Arguments
mod Ring
mod Seek
mod Output
mod Examples
