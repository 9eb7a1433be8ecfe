-- ===== src/Ext2/Tests.antt =====
-- A small disk: one group of 32 inodes, blocks of 1024 bytes, and a file of 2000 bytes.
use omega_os.Base.{
  ℕ, ◌+◌, ◌*◌, ◌%◌, ◌≤◌, ◌<◌, ◌≡◌, refl, true, some, ◌==◌, if◌then◌else◌, put, arith,
}
use omega_os.Base.Run.{ok, fault, and_then}
use omega_os.Ide.{Buffer, Disk, ide_read, read_sectors, lba}
use omega_os.Ext2.{
  Ext2, read_inode, load_block, read_block, inode_file, get_flags, half_at, word_at,
  sectors_per_block, inodes_per_block, inode_group, inode_block, inode_offset, ptrs_per_block,
  i_size, i_sectors, set_half, set_word, sector_to_block, bg_free_blocks_count, get_file_type,
}
use omega_os.Ext2.Blocks.{get_real_block, read_inode_block}
use omega_os.Ext2.Blocks.Address.{Readable, IsSized, Resolves, layout, get_real_block-layout}
use omega_os.Ext2.Blocks.Collide.{get_real_block-collides}
use omega_os.Ext2.Files.{Node, ext2_read}
use omega_os.Ext2.Files.Reading.{InReach, ReadResult, ext2_read-ReadResult}
use omega_os.Ext2.Allocate.{
  allocate_from, allocate_block, delete_block_buffer, find_and_mark_bit, write_inode_block,
  find_bit, find_in_byte, test_bit, set_bit,
}
use omega_os.Ext2.Allocate.Bitmap.{Marked, find_and_mark_bit-Marked}
use omega_os.Ext2.Allocate.Groups.{Before, allocate_from-stops, delete_block_buffer-last_faults}
use omega_os.Ext2.Write.{update_inode, ext2_write}
use omega_os.Ext2.Write.Sectors.{go_on, update_inode-sectors}
use omega_os.Ext2.Allocate.Written.{IsWritable, read_inode_block-write_inode_block}

-- Inode 11 lies in block 6, at byte 256: a regular file in the blocks 20 and 21.
abbrev inode_bytes : Buffer
inode_bytes =
    set_word (set_word (set_word (set_word (set_half (λ b. 0) 256 0x81A4) 260 2000) 284 4) 296 20)
      300 21

abbrev disk : Disk
disk = record {
  sectors = λ k. if k == 12 then inode_bytes else λ b. (k + b) % 256;
  readable = λ k. true;
  writable = λ k. true;
}

abbrev small : Ext2
small = record {
  super_block = record {
    inodes_count = 32;
    blocks_count = 64;
    log_block_size = 0;
    blocks_per_group = 8;
    inodes_per_group = 32;
    magic = 0xEF53;
    inode_size = 128;
  };
  descriptors = set_word (λ b. 0) 8 5;
  tmp_buf = λ b. 0;
  block_size = 1024;
  descriptor_count = 2;
  inodes_per_group = 32;
  disk = disk;
}

abbrev loaded : Buffer
loaded = (read_block 6 small.tmp_buf small).1

abbrev inode : Buffer
inode b = loaded (256 + b)

inode_found : read_inode true 11 small ≡ ok (some inode) (record small { tmp_buf = loaded })
unfolding read_inode load_block read_block ide_read read_sectors lba sectors_per_block
    inodes_per_block inode_group inode_block inode_offset word_at set_word
inode_found = refl

small-IsSized : IsSized small
small-IsSized = (refl, omega arith, omega arith)

all-Readable : (block : ℕ) → Readable small block
all-Readable block k h = refl

abbrev node : Node
node = record { inode = 11; offset = 0; size = 2000 }

get_real_block-layout_example : Resolves small inode 1 (layout small inode 1)
get_real_block-layout_example =
    get_real_block-layout small inode 1 small-IsSized (omega arith)
      (λ h. all-Readable (word_at inode 88))

get_real_block-collides_example :
    get_real_block inode (13 + 256 * 1 + 5) small ≡ get_real_block inode (13 + 256 * 1) small
unfolding ptrs_per_block
get_real_block-collides_example =
    get_real_block-collides small inode 1 5 (omega arith) (omega arith) (omega arith) (omega arith)

reach : InReach small inode 1000 100
unfolding ptrs_per_block
reach = record {
  sized = small-IsSized;
  near = omega arith;
  pointers = all-Readable (word_at inode 88);
  readable = λ k h. all-Readable (layout small inode k);
}

is_file : inode_file inode ≡ true
unfolding inode_file get_flags half_at read_block ide_read read_sectors lba sectors_per_block
    set_word set_half
is_file = refl

size_fits : 1000 + 100 ≤ word_at inode 4
unfolding word_at read_block ide_read read_sectors lba sectors_per_block set_word set_half
size_fits = omega arith

ext2_read-ReadResult_example :
    ReadResult small inode node 1000 100 (ext2_read true true node 1000 100 (λ b. 0) (λ b. 0) small)
ext2_read-ReadResult_example =
    ext2_read-ReadResult small inode true node 1000 100 loaded (λ b. 0) (λ b. 0) inode_found is_file
      size_fits reach (omega arith)

abbrev bits : Buffer
bits k = if k == 0 then 255 else 3

find_and_mark_bit-Marked_example : Marked 4 bits (find_and_mark_bit 4 bits)
find_and_mark_bit-Marked_example = find_and_mark_bit-Marked 4 bits (λ k. ground arith)

-- Group 0 has two free blocks, and group 1 none.
abbrev half_full : Ext2
half_full = record small { descriptors = set_half small.descriptors 12 2 }

second_full : bg_free_blocks_count half_full.descriptors 1 ≡ 0
unfolding half_at set_word set_half
second_full = refl

allocate_from-stops_example : Before 1 half_full (allocate_from 2 0 0 (λ b. 0) half_full)
allocate_from-stops_example = allocate_from-stops 1 (λ b. 0) half_full (omega arith) second_full

delete_block_buffer-last_faults_example : delete_block_buffer (λ b. 0) (8 * (0 + 1)) small ≡ fault
delete_block_buffer-last_faults_example =
    delete_block_buffer-last_faults (λ b. 0) 0 small small-IsSized (omega arith) (omega arith)
      (all-Readable (word_at small.descriptors 32))

marked : find_and_mark_bit 1024 bits ≡ some (10, put bits 1 7)
unfolding find_and_mark_bit find_bit find_in_byte test_bit set_bit
marked = refl

block_number : word_at inode 40 ≡ 20
unfolding word_at read_block ide_read read_sectors lba sectors_per_block set_word set_half
block_number = refl

has_block : 0 < sector_to_block small (word_at inode 28)
unfolding sector_to_block word_at read_block ide_read read_sectors lba sectors_per_block set_word
    set_half
has_block = omega arith

block-IsWritable : IsWritable small (word_at inode 40)
unfolding sectors_per_block
block-IsWritable = record { fits = omega (arith, block_number); takes = λ k h. refl }

read_inode_block-write_inode_block_example :
    (s' : Ext2) × (buf' : Buffer) × (write_inode_block 1 (λ i. true) (λ b. 0) inode 11 0 bits small
      ≡ ok (true, inode) s')
    × (read_inode_block inode 0 (λ b. 0) s' ≡ ok (true, buf') s')
    × ((b : ℕ) → b < 1024 → buf' b ≡ bits b)
read_inode_block-write_inode_block_example =
    read_inode_block-write_inode_block 0 (λ i. true) (λ b. 0) inode 11 0 bits (λ b. 0) small
      small-IsSized (omega arith) has_block block-IsWritable (all-Readable (word_at inode 40))

-- The type of a block device, which is that of a character device, and of a symbolic link.
block_device_type : get_file_type 0x6000 ≡ 3
unfolding get_file_type get_flags
block_device_type = refl

link_type : get_file_type 0xA000 ≡ 3
unfolding get_file_type get_flags
link_type = refl

-- A file of 1100 bytes has two blocks, and is given the sectors of one.
update_inode-sectors_example :
    (i_size (update_inode 1000 100 0 inode) ≡ 1100)
    × (1 * 1024 < i_size (update_inode 1000 100 0 inode))
    × (sector_to_block small (i_sectors (update_inode 1000 100 0 inode)) ≡ 1)
    × (write_inode_block 1 (λ n. true) (λ b. 0) (update_inode 1000 100 0 inode) 11 1 (λ b. 1) small
        ≡ and_then
            (allocate_block true (λ b. 0) (update_inode 1000 100 0 inode) 11 1 small)
            (go_on 0 (λ n. true) (λ b. 0) 11 1 (λ b. 1)))
update_inode-sectors_example =
    update_inode-sectors small 1000 100 0 inode 0 (λ n. true) (λ b. 0) 11 (λ b. 1) (omega arith)
      (omega arith) (omega arith) (omega arith) (omega arith)

-- There is no inode 0, and `ext2_write` reads the size of the null pointer.
write_missing :
    ext2_write
      (record { fuel = 9; granted = λ b n. true; bitmap = λ b. 0 })
      true
      true
      (record { inode = 0; offset = 0; size = 0 })
      0
      1
      (λ b. 0)
      (λ b. 0)
      small
    ≡ fault
unfolding ext2_write read_inode inode_group
write_missing = refl
