-- ===== src/Rabin/Examples.antt =====
-- The numbers of rabin.c.
use mytests.Base.{◌≡◌, refl, arith, false, ◌==◌}
use mytests.Rabin.Defs.{two_steps, one_step}
use mytests.Rabin.Steps.{one_step-two_steps}

-- The large ones overflow, and the results differ.
large_numbers :
    (one_step 0x56785678 0x5566778811223344 0x9876543210abcdef 0x99 0xe7
      == two_steps 0x56785678 0x5566778811223344 0x9876543210abcdef 0x99 0xe7)
    ≡ false
unfolding one_step two_steps
large_numbers = refl

one_step-two_steps_example :
    one_step 0x567858 0x5566778 0x98765ef 0x29 0x17
    ≡ two_steps 0x567858 0x5566778 0x98765ef 0x29 0x17
one_step-two_steps_example =
    one_step-two_steps 0x567858 0x5566778 0x98765ef 0x29 0x17 (omega arith) (omega arith)
      (omega arith) (omega arith) (omega arith)
