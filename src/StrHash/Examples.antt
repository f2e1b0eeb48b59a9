-- ===== src/StrHash/Examples.antt =====
-- Hashes of concrete strings, and the theorem there.
use mytests.Base.{◌≡◌, refl, [], ◌∷◌}
use mytests.StrHash.Defs.{hash_loop_new, ceph_str_hash_linux_new}

sample_hash : ceph_str_hash_linux_new (0x61 ∷ 0x62 ∷ []) ≡ 205832
unfolding ceph_str_hash_linux_new hash_loop_new
sample_hash = refl
