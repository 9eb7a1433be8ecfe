-- ===== src/Ext2.antt =====
-- The ext2 file system: blocks and inodes of kernel/src/fs/ext2.c. The superblock's sizes are not
-- zero, and `granted` says whether the call of `kmalloc` returns memory.
pub mod Blocks
pub mod Allocate
pub mod Files
pub mod Directories
pub mod Write
mod Tests
use Prim.Native.Nat.{bit_and}
use omega_os.Base.{
  ℕ, zero, suc, ◌+◌, ◌-◌, ◌*◌, ◌/◌, ◌%◌, ◌^◌, Bool, true, false, not, ◌&&◌, Option, none, some, ltb,
  leb, ◌==◌, if◌then◌else◌, put, sub64,
}
use omega_os.Base.Run.{Run, ok, fault, Cmd, pure, ◌>>=◌, ◌>>◌, gets, modify}
use omega_os.Ide.{Buffer, Disk, sector_size, ide_read, ide_write}

-- Of a `SuperBlock_t` what the code reads.
pub record SuperBlock : Type 0 where
  pub inodes_count : ℕ
  pub blocks_count : ℕ
  pub log_block_size : ℕ
  pub blocks_per_group : ℕ
  pub inodes_per_group : ℕ
  pub magic : ℕ
  pub inode_size : ℕ

-- The file's static variables and the disk. The group descriptors are as they are on the disk.
pub record Ext2 : Type 0 where
  pub super_block : SuperBlock
  pub descriptors : Buffer
  pub tmp_buf : Buffer
  pub block_size : ℕ
  pub descriptor_count : ℕ
  pub inodes_per_group : ℕ
  pub disk : Disk

-- An address of the kernel heap: no buffer of the file system is at the null pointer.
abbrev pub heap_address : ℕ
heap_address = 0xFFFFFFFF80000028

-- The little-endian integers of a buffer.
unfoldable pub half_at : Buffer → ℕ → ℕ
half_at buf a = buf a + 2 ^ 8 * buf (a + 1)

unfoldable pub word_at : Buffer → ℕ → ℕ
word_at buf a = buf a + 2 ^ 8 * buf (a + 1) + 2 ^ 16 * buf (a + 2) + 2 ^ 24 * buf (a + 3)

unfoldable pub set_half : Buffer → (a v : ℕ) → Buffer
set_half buf a v = put (put buf a (v % 256)) (a + 1) (v / 2 ^ 8 % 256)

unfoldable pub set_word : Buffer → (a v : ℕ) → Buffer
set_word buf a v =
    put (put (put (put buf a (v % 256)) (a + 1) (v / 2 ^ 8 % 256)) (a + 2) (v / 2 ^ 16 % 256))
      (a + 3) (v / 2 ^ 24 % 256)

-- The fields of an `Inode_t` and of a `BlockGroupDescriptor_t`, at their offsets.
abbrev pub i_mode : Buffer → ℕ
i_mode inode = half_at inode 0

abbrev pub i_size : Buffer → ℕ
i_size inode = word_at inode 4

abbrev pub i_sectors : Buffer → ℕ
i_sectors inode = word_at inode 28

abbrev pub i_block : Buffer → ℕ → ℕ
i_block inode k = word_at inode (40 + 4 * k)

abbrev pub descriptor_size : ℕ
descriptor_size = 32

abbrev pub bg_block_bitmap : Buffer → ℕ → ℕ
bg_block_bitmap d i = word_at d (descriptor_size * i)

abbrev pub bg_inode_bitmap : Buffer → ℕ → ℕ
bg_inode_bitmap d i = word_at d (descriptor_size * i + 4)

abbrev pub bg_inode_table : Buffer → ℕ → ℕ
bg_inode_table d i = word_at d (descriptor_size * i + 8)

abbrev pub bg_free_blocks_count : Buffer → ℕ → ℕ
bg_free_blocks_count d i = half_at d (descriptor_size * i + 12)

abbrev pub bg_free_inodes_count : Buffer → ℕ → ℕ
bg_free_inodes_count d i = half_at d (descriptor_size * i + 14)

-- `uint32_t` arithmetic.
abbrev pub add32 : ℕ → ℕ → ℕ
add32 a b = (a + b) % 2 ^ 32

abbrev pub sub32 : ℕ → ℕ → ℕ
sub32 a b = (a + 2 ^ 32 - b) % 2 ^ 32

abbrev pub mul32 : ℕ → ℕ → ℕ
mul32 a b = (a * b) % 2 ^ 32

unfoldable pub sectors_per_block : Ext2 → ℕ
sectors_per_block s = s.block_size / sector_size

unfoldable pub inodes_per_block : Ext2 → ℕ
inodes_per_block s = s.block_size / s.super_block.inode_size

unfoldable pub ptrs_per_block : Ext2 → ℕ
ptrs_per_block s = s.block_size / 4

unfoldable pub sector_to_block : Ext2 → ℕ → ℕ
sector_to_block s sector = mul32 (add32 sector 1) sector_size / s.block_size

abbrev pub ind_block : ℕ
ind_block = 12

abbrev pub dind_block : ℕ
dind_block = 13

abbrev pub tind_block : ℕ
tind_block = 14

unfoldable pub get_flags : ℕ → ℕ
get_flags mode = bit_and mode 0xF000

-- `(flags & mask) == mask`.
abbrev pub has_flags : (flags mask : ℕ) → Bool
has_flags flags mask = bit_and flags mask == mask

unfoldable pub inode_file : Buffer → Bool
inode_file inode = has_flags (get_flags (i_mode inode)) 0x8000

unfoldable pub inode_dir : Buffer → Bool
inode_dir inode = has_flags (get_flags (i_mode inode)) 0x4000

unfoldable pub get_file_type : (attr : ℕ) → ℕ
get_file_type attr =
    let file_type = get_flags attr in
    if has_flags file_type 0x1000
    then 5
    else if has_flags file_type 0x2000
    then 3
    else if has_flags file_type 0x4000
    then 2
    else if has_flags file_type 0x6000
    then 4
    else if has_flags file_type 0x8000
    then 1
    else if has_flags file_type 0xA000
    then 7
    else if has_flags file_type 0xC000
    then 6
    else 0

-- `readBlock` into a buffer, and into `g_tmpBuf`.
unfoldable pub read_block : (block : ℕ) → Buffer → Ext2 → Bool × Buffer
read_block block buf s =
    ide_read (mul32 block (sectors_per_block s)) heap_address (sectors_per_block s) s.disk buf

unfoldable pub load_block : (block : ℕ) → Cmd Ext2 Bool
load_block block s = let r = read_block block s.tmp_buf s in ok r.0 (record s { tmp_buf = r.1 })

unfoldable pub write_block : (block : ℕ) → Buffer → Cmd Ext2 Bool
write_block block buf s =
    let r =
      ide_write (mul32 block (sectors_per_block s)) heap_address (sectors_per_block s) buf s.disk in
    ok r.0 (record s { disk = r.1 })

-- `((uint32_t *)g_tmpBuf)[k]`, a fault outside the buffer, and the assignment to it.
unfoldable pub tmp_word : (k : ℕ) → Cmd Ext2 ℕ
tmp_word k s = if ltb k (ptrs_per_block s) then ok (word_at s.tmp_buf (4 * k)) s else fault

unfoldable pub set_tmp_word : (k v : ℕ) → Cmd Ext2 (Unit {0})
set_tmp_word k v s =
    if ltb k (ptrs_per_block s)
    then ok tt (record s { tmp_buf = set_word s.tmp_buf (4 * k) v })
    else fault

-- Group, block and offset of an inode.
unfoldable pub inode_group : Ext2 → ℕ → ℕ
inode_group s ino = sub32 ino 1 / s.super_block.inodes_per_group

unfoldable pub inode_block : Ext2 → ℕ → ℕ
inode_block s ino =
    add32 (bg_inode_table s.descriptors (inode_group s ino))
      (sub32 ino 1 % s.super_block.inodes_per_group / inodes_per_block s)

unfoldable pub inode_offset : Ext2 → ℕ → ℕ
inode_offset s ino =
    sub32 ino 1 % s.super_block.inodes_per_group % inodes_per_block s * s.super_block.inode_size

unfoldable pub read_inode : (granted : Bool) (ino : ℕ) → Cmd Ext2 (Option Buffer)
read_inode granted ino = do
  s ← gets (λ s. s)
  if leb s.descriptor_count (inode_group s ino) then pure none else (do
    fine ← load_block (inode_block s ino)
    if fine && granted
        then gets (λ t. some (λ b. t.tmp_buf (inode_offset s ino + b)))
        else pure none)

-- `memcpy` of `n` bytes to the offset `at` of a buffer.
abbrev pub copy_into : Buffer → (at n : ℕ) (from : Buffer) → Buffer
copy_into buf at n from b = if leb at b && ltb b (at + n) then from (b - at) else buf b

unfoldable pub write_inode : (ino : ℕ) → Buffer → Cmd Ext2 Bool
write_inode ino inode = do
  s ← gets (λ s. s)
  if leb s.descriptor_count (inode_group s ino) then pure false else (do
    fine ← load_block (inode_block s ino)
    if not fine then pure false else (do
      modify (λ t. record t {
        tmp_buf = copy_into t.tmp_buf (inode_offset s ino) s.super_block.inode_size inode;
      })
      t ← gets (λ t. t)
      write_block (inode_block s ino) t.tmp_buf))
