-- ===== src/Ext2/Blocks/Collide.antt =====
-- The double indirect case of `getRealBlock` of kernel/src/fs/ext2.c.
use native.Mathlib.Nat.{mul-add-div, div-eq_of_lt, mul-le-mul_left}
use omega_os.Base.{
  ℕ, ◌+◌, ◌*◌, ◌/◌, ◌^◌, ◌≤◌, ◌<◌, ◌≡◌, refl, ◌∙◌, ap, sym, true, false, ltb, arith,
}
use omega_os.Ide.{Buffer}
use omega_os.Ext2.{Ext2, ptrs_per_block, sub32}
use omega_os.Ext2.Blocks.{get_real_block, double_b, double_c, double_d}

double_b-run : (p q r : ℕ) → r < p → 13 + p * q + r < 2 ^ 32 → double_b p (13 + p * q + r) ≡ q
unfolding double_b
double_b-run p q r h small =
    let e : sub32 (13 + p * q + r) 13 ≡ p * q + r = omega arith in
    let pos : 0 < p = omega arith in
    let quot : (p * q + r) / p ≡ q + r / p = mul-add-div pos q r in
    let none_left : r / p ≡ 0 = div-eq_of_lt h in ap (λ x. x / p) e ∙ quot ∙ omega arith

-- The pointers that the double indirect case reads depend on `b` alone.
same_double :
    (s : Ext2) (inode : Buffer) (block block' : ℕ)
    → double_b (ptrs_per_block s) block ≡ double_b (ptrs_per_block s) block'
    → 12 + ptrs_per_block s ≤ block
    → 12 + ptrs_per_block s ≤ block'
    → block < 12 + ptrs_per_block s * ptrs_per_block s + ptrs_per_block s
    → block' < 12 + ptrs_per_block s * ptrs_per_block s + ptrs_per_block s
    → get_real_block inode block s ≡ get_real_block inode block' s
unfolding get_real_block double_c double_d
same_double s inode block block' same lo lo' hi hi' =
    let p = ptrs_per_block s in
    let e : ltb block 12 ≡ false = ground arith in
    let f : ltb block (12 + p) ≡ false = ground arith in
    let g : ltb block (12 + p * p + p) ≡ true = ground arith in
    let e' : ltb block' 12 ≡ false = ground arith in
    let f' : ltb block' (12 + p) ≡ false = ground arith in
    let g' : ltb block' (12 + p * p + p) ≡ true = ground arith in
    rw (e, f, g, e', f', g', same) refl

-- In the double indirect range `getRealBlock` gives the same result for `ptrs_per_block` blocks of a
-- file in a row, whatever the inode and the disk hold: it divides the number by that count before it
-- looks up the pointers.
pub get_real_block-collides :
    (s : Ext2) (inode : Buffer) (q r : ℕ)
    → 1 ≤ q
    → r < ptrs_per_block s
    → 13 + ptrs_per_block s * q + r < 12 + ptrs_per_block s * ptrs_per_block s + ptrs_per_block s
    → 13 + ptrs_per_block s * q + r < 2 ^ 32
    → get_real_block inode (13 + ptrs_per_block s * q + r) s
      ≡ get_real_block inode (13 + ptrs_per_block s * q) s
get_real_block-collides s inode q r pos h range small =
    let p = ptrs_per_block s in
    let more : p * 1 ≤ p * q = mul-le-mul_left p pos in
    same_double s inode (13 + p * q + r) (13 + p * q)
      (double_b-run p q r h small
        ∙ sym (ap (double_b p) (omega arith) ∙ double_b-run p q 0 (omega arith) (omega arith)))
      (omega arith) (omega arith) (omega arith) (omega arith)
