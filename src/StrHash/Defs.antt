-- ===== src/StrHash/Defs.antt =====
-- ceph-hash.c: the string hash with a 32-bit and with a 64-bit accumulator.
use mytests.Base.{ℕ, ◌+◌, ◌*◌, ◌≡◌, refl, arith, List, [], ◌∷◌}
use mytests.Base.Word.{u32, u64, ◌<<<◌, ◌>>>◌}

-- The loops, over the `length` bytes at `str`.
unfoldable pub hash_loop_new : List ℕ → ℕ → ℕ
hash_loop_new [] hash = hash
hash_loop_new (c ∷ str) hash = hash_loop_new str (u32 (u32 (hash + (c <<< 4) + (c >>> 4)) * 11))

unfoldable pub hash_loop_old : List ℕ → ℕ → ℕ
hash_loop_old [] hash = hash
hash_loop_old (c ∷ str) hash = hash_loop_old str (u64 (u64 (hash + (c <<< 4) + (c >>> 4)) * 11))

unfoldable pub ceph_str_hash_linux_new : List ℕ → ℕ
unfolding hash_loop_new
ceph_str_hash_linux_new str = hash_loop_new str 0

-- The result is cast to `unsigned`.
unfoldable pub ceph_str_hash_linux_old : List ℕ → ℕ
unfolding hash_loop_old
ceph_str_hash_linux_old str = u32 (hash_loop_old str 0)

loops : (str : List ℕ) (h : ℕ) → u32 (hash_loop_old str h) ≡ hash_loop_new str (u32 h)
unfolding hash_loop_old hash_loop_new
loops [] h = refl
loops (c ∷ str) h = ground (arith, loops str (u64 (u64 (h + (c <<< 4) + (c >>> 4)) * 11)))

-- Removing `long` changes no hash: for every string, the version with the 32-bit accumulator returns
-- what the one with the 64-bit accumulator does.
pub ceph_str_hash_linux_new-ceph_str_hash_linux_old :
    (str : List ℕ) → ceph_str_hash_linux_new str ≡ ceph_str_hash_linux_old str
unfolding ceph_str_hash_linux_new ceph_str_hash_linux_old
ceph_str_hash_linux_new-ceph_str_hash_linux_old str = ground (arith, loops str 0)
