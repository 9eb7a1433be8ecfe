-- ===== src/Ext2/Allocate/Groups.antt =====
-- The groups that `allocateBlock` and `deleteBlockBuffer` of kernel/src/fs/ext2.c look at.
use native.Mathlib.Nat.{mul-div_cancel_left, mul-le-mul_left, mul-mod_right}
use omega_os.Base.{
  ℕ, zero, suc, ◌+◌, ◌*◌, ◌/◌, ◌%◌, ◌≤◌, ◌<◌, ◌≡◌, refl, false, ltb, leb, ◌==◌, Option, none, some,
  ◌≢◌, ◌⊎◌, inl, inr, Bool-cases, Option-cases, ℕ_discrete, subst, sym, arith,
}
use omega_os.Base.Run.{Run, ok, fault}
use omega_os.Ide.{Buffer}
use omega_os.Ext2.{
  Ext2, bg_free_blocks_count, bg_block_bitmap, sub32, add32, mul32, read_block, write_block,
}
use omega_os.Ext2.Blocks.Address.{Readable, IsSized, read_block-Holds}
use omega_os.Ext2.Allocate.{
  take_block, allocate_from, find_and_mark_bit, clear_bit, delete_block_buffer,
}

-- The number of the block for a bit of a group's bitmap.
abbrev pub block_of : Ext2 → (i bit : ℕ) → ℕ
block_of s i bit = add32 (add32 bit (mul32 s.super_block.blocks_per_group i)) 1

-- The search ends, with an early return that changes nothing, or with a block of a group below `k`.
abbrev pub Before : (k : ℕ) → Ext2 → Run Ext2 (Option ℕ) → Type 0
Before k s r =
    (r ≡ ok none s)
    ⊎ (i : ℕ) × (bit : ℕ) × (s' : Ext2) × (r ≡ ok (some (block_of s i bit)) s')
      × (i < k)
      × (bit ≢ 0)
      × (0 < bg_free_blocks_count s.descriptors i)

take_block-Before :
    (k i bit : ℕ) (bitmap : Buffer) (s : Ext2)
    → i < k
    → 0 < bg_free_blocks_count s.descriptors i
    → Before k s (take_block i bit bitmap s)
unfolding take_block write_block
take_block-Before k i bit bitmap s below some_free = elim (Bool-cases (bit == 0)) [
  | inl e ↦ inl (rw e)
  | inr e ↦ rw (take_block, e) (inr (i, bit, _, refl, below, ground (arith, e), some_free))
]

-- The rounds from group `i` on, with no bit found, of which one is for the group `k`, which is full.
allocate_from-Before :
    (n i k : ℕ) (bitmap : Buffer) (s : Ext2)
    → i ≤ k
    → k < i + n
    → bg_free_blocks_count s.descriptors k ≡ 0
    → Before k s (allocate_from n i 0 bitmap s)
unfolding allocate_from take_block
allocate_from-Before zero i k bitmap s from to full = absurd (omega (arith, from, to))
allocate_from-Before (suc n) i k bitmap s from to full =
    elim (Bool-cases (ltb 0 (bg_free_blocks_count s.descriptors i))) [
      | inr none_free ↦ inl (rw (allocate_from, none_free))
      | inl some_free ↦
          let count : 0 < bg_free_blocks_count s.descriptors i = ground (arith, some_free) in
          let below : i < k = elim (ℕ_discrete i k) [
            | yes same ↦ absurd (
                omega (
                  arith,
                  count,
                  subst (λ j. bg_free_blocks_count s.descriptors j ≡ 0) (sym same) full,
                ))
            | no other ↦ omega (arith, from, other)
          ] in
          let r = read_block (bg_block_bitmap s.descriptors i) bitmap s in
          elim (Bool-cases r.0) [
            | inr broken ↦ inl (rw (allocate_from, some_free, broken))
            | inl fine ↦ elim (Option-cases (find_and_mark_bit s.block_size r.1)) [
              | inl nothing ↦
                  rw (allocate_from, some_free, fine, nothing)
                    (allocate_from-Before n (i + 1) k r.1 s (omega (arith, below))
                      (omega (arith, to)) full)
              | inr (found, e) ↦
                  rw (allocate_from, some_free, fine, e)
                    (take_block-Before k i found.0 found.1 s below count)
            ]
          ]
    ]

-- When a group has no free block, `allocateBlock` takes none from that group or those behind it,
-- whatever they have: its loop over the groups returns early and changes nothing, or with a block of a
-- group in front, which has counted a free block.
pub allocate_from-stops :
    (k : ℕ) (bitmap : Buffer) (s : Ext2)
    → k < s.descriptor_count
    → bg_free_blocks_count s.descriptors k ≡ 0
    → Before k s (allocate_from s.descriptor_count 0 0 bitmap s)
allocate_from-stops k bitmap s inside full =
    allocate_from-Before s.descriptor_count 0 k bitmap s (omega arith) (omega (arith, inside)) full

-- `deleteBlockBuffer` of the last block of group `i`, when there is a group behind it whose bitmap can
-- be read: it clears a bit outside the bitmap's buffer.
pub delete_block_buffer-last_faults :
    (bitmap : Buffer) (i : ℕ) (s : Ext2)
    → IsSized s
    → 1 ≤ s.super_block.blocks_per_group
    → i + 1 < s.descriptor_count
    → Readable s (bg_block_bitmap s.descriptors (i + 1))
    → delete_block_buffer bitmap (s.super_block.blocks_per_group * (i + 1)) s ≡ fault
unfolding delete_block_buffer clear_bit
delete_block_buffer-last_faults bitmap i s sized pos group good =
    let g = s.super_block.blocks_per_group in
    let index : g * (i + 1) / g ≡ i + 1 = mul-div_cancel_left (i + 1) pos in
    let offset : g * (i + 1) % g ≡ 0 = mul-mod_right g (i + 1) in
    let some_block : (g * (i + 1) == 0) ≡ false =
      (let more : g * 1 ≤ g * (i + 1) = mul-le-mul_left g (omega arith) in ground arith) in
    let inside : leb s.descriptor_count (i + 1) ≡ false = ground arith in
    let (fine, holds) =
      read_block-Holds (bg_block_bitmap s.descriptors (i + 1)) bitmap s sized good in
    let outside : ltb (sub32 0 1 / 8) s.block_size ≡ false = ground (arith, sized.2) in
    rw (some_block, index, inside, fine, offset, outside) refl
