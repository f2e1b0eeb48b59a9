-- ===== src/Counting.antt =====
-- cpp/sort-range.cc and cpp/mode-range.cc: sorting and the most frequent value by counting;
-- and cpp/minmax.cc: the least and the greatest value.
mod Defs
mod Tally
mod Ranks
mod Sorting
mod Scans
mod Mode
mod Agreement
mod MinMax
mod Examples
