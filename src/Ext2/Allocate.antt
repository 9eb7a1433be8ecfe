-- ===== src/Ext2/Allocate.antt =====
-- Taking and giving back blocks and inodes: the bitmap macros, `allocateBlock`, `writeInodeBlock`,
-- `deleteBlockBuffer`, `deleteBlock` and `deleteInode` of kernel/src/fs/ext2.c.
pub mod Bitmap
pub mod Groups
pub mod Written
use omega_os.Base.{
  ℕ, zero, suc, ◌+◌, ◌-◌, ◌*◌, ◌/◌, ◌%◌, ◌^◌, Bool, true, false, not, Option, none, some, ltb, leb,
  ◌==◌, if◌then◌else◌, put,
}
use omega_os.Base.Run.{Run, ok, fault, out_of_fuel, Cmd, pure, ◌>>=◌, ◌>>◌, gets, modify}
use omega_os.Ide.{Buffer}
use omega_os.Ext2.{
  Ext2, i_size, i_sectors, bg_block_bitmap, bg_inode_bitmap, bg_free_blocks_count,
  bg_free_inodes_count, descriptor_size, add32, sub32, mul32, sectors_per_block, sector_to_block,
  set_half, set_word, read_block, write_block, write_inode,
}
use omega_os.Ext2.Blocks.{get_real_block, set_real_block}

abbrev pub block_group_start : ℕ
block_group_start = 2

abbrev pub eperm : ℕ
eperm = 1

abbrev pub eio : ℕ
eio = 5

abbrev pub enomem : ℕ
enomem = 12

-- `byte & (1 << j)`.
unfoldable pub test_bit : (byte j : ℕ) → Bool
test_bit byte j = byte / 2 ^ j % 2 == 1

-- `byte | (1 << j)` and `byte & ~(1 << j)`.
unfoldable pub set_bit : (byte j : ℕ) → ℕ
set_bit byte j = if test_bit byte j then byte else byte + 2 ^ j

unfoldable pub reset_bit : (byte j : ℕ) → ℕ
reset_bit byte j = if test_bit byte j then byte - 2 ^ j else byte

-- The loops of `FIND_AND_MARK_BIT` over the bits of a byte and over the bytes, with `n` rounds left.
unfoldable pub find_in_byte : (byte n j : ℕ) → Option ℕ
find_in_byte byte zero j = none
find_in_byte byte (suc n) j =
    let rest = find_in_byte byte n (j + 1) in if not (test_bit byte j) then some j else rest

abbrev pub or_else : Option ℕ → (k : ℕ) → Option ℕ → Option ℕ
or_else none k rest = rest
or_else (some j) k rest = some (8 * k + j)

unfoldable pub find_bit : (bitmap : Buffer) (n k : ℕ) → Option ℕ
find_bit bitmap zero k = none
find_bit bitmap (suc n) k =
    let rest = find_bit bitmap n (k + 1) in
    if not (bitmap k == 255) then or_else (find_in_byte (bitmap k) 8 0) k rest else rest

abbrev pub mark_bit : Buffer → ℕ → Buffer
mark_bit bitmap bit = put bitmap (bit / 8) (set_bit (bitmap (bit / 8)) (bit % 8))

abbrev pub with_mark : Buffer → Option ℕ → Option (ℕ × Buffer)
with_mark bitmap none = none
with_mark bitmap (some bit) = some (bit, mark_bit bitmap bit)

-- The bit, and the bitmap with it marked.
unfoldable pub find_and_mark_bit : (block_size : ℕ) → Buffer → Option (ℕ × Buffer)
find_and_mark_bit block_size bitmap = with_mark bitmap (find_bit bitmap block_size 0)

-- `CLEAR_BIT`, a fault outside the bitmap.
unfoldable pub clear_bit : Buffer → (bit : ℕ) → Cmd Ext2 Buffer
clear_bit bitmap bit s =
    if ltb (bit / 8) s.block_size
    then ok (put bitmap (bit / 8) (reset_bit (bitmap (bit / 8)) (bit % 8))) s
    else fault

-- What follows the label `found_bit` of `allocateBlock`; `none` is its early return.
unfoldable pub take_block : (i bit : ℕ) → Buffer → Cmd Ext2 (Option ℕ)
take_block i bit bitmap = if bit == 0 then pure none else (do
  s ← gets (λ s. s)
  let count = bg_free_blocks_count s.descriptors i
  let d = set_half s.descriptors (descriptor_size * i + 12) ((count + 2 ^ 16 - 1) % 2 ^ 16)
  modify (λ t. record t { descriptors = d })
  write_block (bg_block_bitmap d i) bitmap
  write_block block_group_start d
  pure (some (add32 (add32 bit (mul32 s.super_block.blocks_per_group i)) 1)))

-- The loop of `allocateBlock` with `n` groups left, and 0 when it has seen them all.
unfoldable pub allocate_from : (n i bit : ℕ) → Buffer → Cmd Ext2 (Option ℕ)
allocate_from zero i bit bitmap = pure (some 0)
allocate_from (suc n) i bit bitmap = do
  s ← gets (λ s. s)
  if ltb 0 (bg_free_blocks_count s.descriptors i)
      then (do
        r ← gets (read_block (bg_block_bitmap s.descriptors i) bitmap)
        if not r.0 then pure none else elim (find_and_mark_bit s.block_size r.1) [
          | none ↦ allocate_from n (i + 1) 0 r.1
          | some (found, marked) ↦ take_block i found marked
        ])
      else take_block i bit bitmap

-- The inode is changed in place, so it is returned. `bitmap` is what the buffer holds at first.
unfoldable pub allocate_block :
    (granted : Bool) (bitmap inode : Buffer) (ino block : ℕ) → Cmd Ext2 (Bool × Buffer)
allocate_block granted bitmap inode ino block = if not granted then pure (false, inode) else (do
  n ← gets (λ s. s.descriptor_count)
  new_block ← allocate_from n 0 0 bitmap
  elim new_block [
    | none ↦ pure (false, inode)
    | some new ↦ if new == 0 then pure (false, inode) else (do
      r ← set_real_block inode block new
      if not r.0 then pure (false, r.1) else (do
        s ← gets (λ s. s)
        let more = set_word r.1 28 (add32 (i_sectors r.1) (sectors_per_block s))
        let bigger = set_word more 4 (add32 (i_size more) s.block_size)
        write_inode ino bigger
        pure (true, bigger)))
  ])

-- The loop of `writeInodeBlock`, which allocates until the file has the block: whether it could, and
-- the inode.
unfoldable pub grow_inode :
    (fuel : ℕ) (granted : ℕ → Bool) (bitmap inode : Buffer) (ino block : ℕ)
    → Cmd Ext2 (Bool × Buffer)
grow_inode zero granted bitmap inode ino block = λ s. out_of_fuel
grow_inode (suc fuel) granted bitmap inode ino block = do
  s ← gets (λ s. s)
  if not (leb (sector_to_block s (i_sectors inode)) block) then pure (true, inode) else (do
    r ← allocate_block (granted fuel) bitmap inode ino (sector_to_block s (i_sectors inode))
    if not r.0 then pure (false, r.1) else grow_inode fuel granted bitmap r.1 ino block)

unfoldable pub write_inode_block :
    (fuel : ℕ) (granted : ℕ → Bool) (bitmap inode : Buffer) (ino block : ℕ) (buffer : Buffer)
    → Cmd Ext2 (Bool × Buffer)
write_inode_block fuel granted bitmap inode ino block buffer = do
  r ← grow_inode fuel granted bitmap inode ino block
  if not r.0
      then pure (false, r.1)
      else (do real ← get_real_block r.1 block; fine ← write_block real buffer; pure (fine, r.1))

-- The status, and the bitmap's buffer.
unfoldable pub delete_block_buffer : (bitmap : Buffer) (block : ℕ) → Cmd Ext2 (ℕ × Buffer)
delete_block_buffer bitmap block = if block == 0 then pure (eio, bitmap) else (do
  s ← gets (λ s. s)
  let index = block / s.super_block.blocks_per_group
  let offset = block % s.super_block.blocks_per_group
  if leb s.descriptor_count index then pure (eperm, bitmap) else (do
    r ← gets (read_block (bg_block_bitmap s.descriptors index) bitmap)
    if not r.0 then pure (eio, r.1) else (do
      cleared ← clear_bit r.1 (sub32 offset 1)
      let count = bg_free_blocks_count s.descriptors index
      let d = set_half s.descriptors (descriptor_size * index + 12) ((count + 1) % 2 ^ 16)
      modify (λ t. record t { descriptors = d })
      write_block (bg_block_bitmap d index) cleared
      write_block block_group_start d
      pure (0, cleared))))

unfoldable pub delete_block : (granted : Bool) (bitmap : Buffer) (block : ℕ) → Cmd Ext2 ℕ
delete_block granted bitmap block =
    if not granted then pure enomem else (do r ← delete_block_buffer bitmap block; pure r.0)

-- The loop of `deleteInode` over the blocks, with `n` left.
unfoldable pub delete_blocks : (inode bitmap : Buffer) (n block : ℕ) → Cmd Ext2 ℕ
delete_blocks inode bitmap zero block = pure 0
delete_blocks inode bitmap (suc n) block = do
  real ← get_real_block inode block
  r ← delete_block_buffer bitmap real
  if not (r.0 == 0) then pure r.0 else delete_blocks inode r.1 n (block + 1)

unfoldable pub delete_inode : (granted : Bool) (bitmap inode : Buffer) (ino : ℕ) → Cmd Ext2 ℕ
delete_inode granted bitmap inode ino = if not granted then pure enomem else (do
  s ← gets (λ s. s)
  let index = ino / s.inodes_per_group
  let offset = ino % s.inodes_per_group
  if leb s.descriptor_count index then pure eperm else (do
    r ← gets (read_block (bg_inode_bitmap s.descriptors index) bitmap)
    if not r.0 then pure eio else (do
      cleared ← clear_bit r.1 (sub32 offset 1)
      let count = bg_free_inodes_count s.descriptors index
      let d = set_half s.descriptors (descriptor_size * index + 14) ((count + 1) % 2 ^ 16)
      modify (λ t. record t { descriptors = d })
      write_block (bg_inode_bitmap d index) cleared
      write_block block_group_start d
      let last = i_size inode / s.block_size
      let n = if not (i_size inode % s.block_size == 0) then last + 1 else last
      if i_size inode == 0 then pure 0 else delete_blocks inode cleared n 0)))
