-- ===== src/Pext/Examples.antt =====
-- A run of cpp/pext.cc.
use mytests.Base.{◌≡◌, refl, arith}
use mytests.Pext.Defs.{entry_loop, gen_pext_lookup_table, pext_u64_simu}
use mytests.Pext.Bits.{select, value}
use mytests.Pext.Simulation.{pext_u64_simu-select}

-- The bits 1, 3 and 4 of 26.
one_entry : entry_loop 6 0 26 18 0 0 ≡ 5
unfolding entry_loop
one_entry = refl

pext_u64_simu-select_example :
    pext_u64_simu gen_pext_lookup_table 0xff00ff00ff00ff01 0x1234567890abcdef
    ≡ value (select 64 0xff00ff00ff00ff01 0x1234567890abcdef)
pext_u64_simu-select_example =
    pext_u64_simu-select 0xff00ff00ff00ff01 0x1234567890abcdef (omega arith)
