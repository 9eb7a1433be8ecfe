-- ===== src/Ext2/Directories/Tests.antt =====
-- A root directory with the entries `.` and `a`.
use omega_os.Base.{
  ℕ, ◌+◌, ◌/◌, ◌≡◌, refl, true, none, some, [], ◌∷◌, ◌==◌, if◌then◌else◌, arith, ◌∙◌, ap, ap₂,
}
use omega_os.Base.Run.{ok}
use omega_os.Ide.{Buffer, ide_read, read_sectors, lba}
use omega_os.Ext2.{
  Ext2, read_inode, load_block, read_block, inode_dir, get_flags, half_at, word_at,
  sectors_per_block, inodes_per_block, inode_group, inode_block, inode_offset, set_half, set_word,
}
use omega_os.Ext2.Blocks.{get_real_block}
use omega_os.Ext2.Blocks.Address.{Holds, block_byte, get_real_block_direct}
use omega_os.Ext2.Files.Reading.{IsMapped}
use omega_os.Ext2.Directories.{ext2_finddir, ino2vfs}
use omega_os.Ext2.Directories.Lookup.{
  Listing, IsListing, HasEntries, lookup_blocks, ext2_finddir-lookup_blocks,
}

abbrev inode_bytes : Buffer
inode_bytes = set_word (set_word (set_half (λ b. 0) 128 0x41ED) 132 1024) 168 30

abbrev entry_bytes : Buffer
entry_bytes b =
    if b == 0
    then 2
    else if b == 4
    then 12
    else if b == 8
    then 46
    else if b == 12
    then 11
    else if b == 16
    then 0xF4
    else if b == 17
    then 3
    else if b == 20
    then 97
    else 0

abbrev small : Ext2
small = record {
  super_block = record {
    inodes_count = 32;
    blocks_count = 64;
    log_block_size = 0;
    blocks_per_group = 64;
    inodes_per_group = 32;
    magic = 0xEF53;
    inode_size = 128;
  };
  descriptors = set_word (λ b. 0) 8 5;
  tmp_buf = λ b. 0;
  block_size = 1024;
  descriptor_count = 1;
  inodes_per_group = 32;
  disk = record {
    sectors = λ k. if k == 10 then inode_bytes else if k == 60 then entry_bytes else λ b. 0;
    readable = λ k. true;
    writable = λ k. true;
  };
}

abbrev loaded : Buffer
loaded = (read_block 5 small.tmp_buf small).1

abbrev root : Buffer
root b = loaded (128 + b)

root_found : read_inode true 2 small ≡ ok (some root) (record small { tmp_buf = loaded })
unfolding read_inode load_block read_block ide_read read_sectors lba sectors_per_block
    inodes_per_block inode_group inode_block inode_offset word_at set_word
root_found = refl

root_dir : inode_dir root ≡ true
unfolding inode_dir get_flags half_at read_block ide_read read_sectors lba sectors_per_block
    set_word set_half
root_dir = refl

root_blocks : word_at root 4 / 1024 ≡ 1
unfolding word_at read_block ide_read read_sectors lba sectors_per_block set_word set_half
root_blocks = refl

root_block : word_at root 40 ≡ 30
unfolding word_at read_block ide_read read_sectors lba sectors_per_block set_word set_half
root_block = refl

mapped : IsMapped small root (λ k. 30) 0 0 0
mapped = record {
  resolves = λ tmp k lo hi. (
    tmp,
    ap (λ j. get_real_block root j (record small { tmp_buf = tmp })) (omega arith)
        ∙ get_real_block_direct (record small { tmp_buf = tmp }) root 0 (omega arith)
        ∙ ap₂ (λ (a : ℕ) (j : ℕ). ok a (record small { tmp_buf = tmp })) root_block root_block,
  );
  readable = λ k lo hi j h. refl;
  sized = (refl, omega arith, omega arith);
}

abbrev entries : Listing
entries k = (
  record { inode = 2; len = 12; name = 46 ∷ [] },
  record { inode = 11; len = 1012; name = 97 ∷ [] } ∷ [],
)

held_entries :
    (buf : Buffer) → Holds small 30 buf → HasEntries buf 1024 0 (entries 0).0 (entries 0).1
unfolding half_at word_at block_byte sectors_per_block lba
held_entries buf holds = (
  (
    (holds 8 (omega arith), omega arith, holds 9 (omega arith)),
    omega (
      arith,
      holds 0 (omega arith),
      holds 1 (omega arith),
      holds 2 (omega arith),
      holds 3 (omega arith),
    ),
    omega (arith, holds 4 (omega arith), holds 5 (omega arith)),
  ),
  omega arith,
  (
    (
      (holds 20 (omega arith), omega arith, holds 21 (omega arith)),
      omega (
        arith,
        holds 12 (omega arith),
        holds 13 (omega arith),
        holds 14 (omega arith),
        holds 15 (omega arith),
      ),
      omega (arith, holds 16 (omega arith), holds 17 (omega arith)),
    ),
    omega arith,
    omega arith,
  ),
)

listing : IsListing small root (λ k. 30) 0 mapped entries 2
listing = record { has = λ k buf lo holds. held_entries buf holds; short = λ k lo. omega arith }

ext2_finddir-lookup_blocks_example :
    (g : Buffer) × (ext2_finddir 2 (λ i. true) (λ b. 0) 0 2 (97 ∷ []) small
      ≡ elim (lookup_blocks (97 ∷ []) entries (0 + 1) 0) [
        | none ↦ ok none (record small { tmp_buf = g })
        | some child ↦ ino2vfs true true 0 child (97 ∷ []) (record small { tmp_buf = g })
      ])
ext2_finddir-lookup_blocks_example =
    ext2_finddir-lookup_blocks small root (λ k. 30) 0 mapped entries 2 listing (97 ∷ [])
      (omega arith, tt) (λ i. true) (λ b. 0) loaded 0 2 root_found root_dir refl root_blocks
      (omega arith)
