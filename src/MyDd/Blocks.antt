-- ===== src/MyDd/Blocks.antt =====
-- The order in which mysql/io-bench/mydd.cc visits the blocks of the file.
use mytests.Base.{ℕ, suc, ◌+◌, ◌*◌, ◌/◌, ◌%◌, ◌≤◌, ◌<◌, ◌≡◌, ap, sym, ◌∙◌, arith}
use native.Mathlib.Nat.{
  mul_comm, mul_assoc, mul-div_cancel_left, mul-add-div_right, mul-add-mod_self_right, div-eq_of_lt,
  mod-eq_of_lt, mod-lt, add-mul, div-lt_iff_lt-mul, mul-le-mul_right, div-add-mod',
}
use mathlib.Core.Path.{subst}
use mytests.MyDd.Defs.{sub_block}

-- With `size` blocks in each of `depth` parts of the file.
sub_block-parts :
    (size depth i : ℕ) → 0 < depth → sub_block (depth * size) depth i ≡ i % depth * size + i / depth
unfolding sub_block
sub_block-parts size depth i pos =
    let swap : i % depth * (depth * size) ≡ depth * (i % depth * size) =
      sym (mul_assoc (i % depth) depth size)
      ∙ ap (λ (t : ℕ). t * size) (mul_comm (i % depth) depth)
      ∙ mul_assoc depth (i % depth) size in
    ap (λ (t : ℕ). t / depth + i / depth) swap
    ∙ ap (λ (t : ℕ). t + i / depth) (mul-div_cancel_left (i % depth * size) pos)

-- The request that writes a block.
unfoldable pub request_of : ℕ → ℕ → ℕ → ℕ
request_of size depth block = block % size * depth + block / size

-- When the depth divides the count of blocks, request `i` writes a block of the file, and `request_of` finds
-- `i` from the block, so that no two requests write the same block.
pub sub_block-request_of :
    (size depth i : ℕ)
    → 0 < depth
    → i < depth * size
    → (sub_block (depth * size) depth i < depth * size)
      × (request_of size depth (sub_block (depth * size) depth i) ≡ i)
unfolding request_of
sub_block-request_of size depth i pos h =
    let q = i / depth in
    let r = i % depth in
    let q_less : q < size =
      (div-lt_iff_lt-mul pos).1 (subst (λ (t : ℕ). i < t) (mul_comm depth size) h) in
    let r_less : r < depth = mod-lt i pos in
    let size_pos : 0 < size = omega (arith, q_less) in
    let bound : suc r * size ≤ depth * size = mul-le-mul_right size r_less in
    let quotient : (r * size + q) / size ≡ r =
      mul-add-div_right size_pos r q ∙ omega (arith, div-eq_of_lt q_less) in
    let remainder : (r * size + q) % size ≡ q =
      mul-add-mod_self_right r size q ∙ mod-eq_of_lt q_less in
    rw (sub_block-parts size depth i pos) (
      omega (arith, bound, add-mul 1 r size, q_less),
      rw (quotient, remainder) (div-add-mod' i depth),
    )
