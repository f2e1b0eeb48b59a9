-- ===== src/Pext.antt =====
-- cpp/pext.cc: the bit extraction of the BMI2 instruction by a table.
mod Defs
mod Bits
mod Table
mod Simulation
mod Examples
