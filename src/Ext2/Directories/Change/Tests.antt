-- ===== src/Ext2/Directories/Change/Tests.antt =====
-- A root directory of two blocks, with the entries `.` and `a` in the first and `b` in the second.
use omega_os.Base.{
  ℕ, zero, suc, ◌≤◌, length, ◌+◌, ◌/◌, ◌<◌, ◌≡◌, refl, true, none, some, [], ◌∷◌, ◌==◌,
  if◌then◌else◌, arith, ◌∙◌, ap,
}
use omega_os.Base.Run.{ok}
use omega_os.Ide.{Buffer, ide_read, read_sectors, lba}
use omega_os.Ext2.{Ext2, read_block, half_at, word_at, sectors_per_block, set_half, set_word}
use omega_os.Ext2.Blocks.{get_real_block}
use omega_os.Ext2.Blocks.Address.{Holds, block_byte, get_real_block_direct}
use omega_os.Ext2.Files.Reading.{IsMapped}
use omega_os.Ext2.Directories.{find_in_blocks}
use omega_os.Ext2.Directories.Change.{enoent, delete_inode_from_dir}
use omega_os.Ext2.Directories.Change.Removed.{delete_inode_from_dir-first_block}
use omega_os.Path.{same_text}
use omega_os.Ext2.Directories.Lookup.{Listing, IsListing, HasEntries, lookup_blocks, lookup}

abbrev inode_bytes : Buffer
inode_bytes = set_word (set_word (set_word (set_half (λ b. 0) 128 0x41ED) 132 2048) 168 30) 172 31

abbrev entry_bytes : Buffer
entry_bytes b =
    if b == 0
    then 2
    else if b == 4
    then 12
    else if b == 8
    then 46
    else if b == 12
    then 11
    else if b == 16
    then 0xF4
    else if b == 17
    then 3
    else if b == 20
    then 97
    else 0

abbrev more_bytes : Buffer
more_bytes b = if b == 0 then 12 else if b == 5 then 4 else if b == 8 then 98 else 0

abbrev small : Ext2
small = record {
  super_block = record {
    inodes_count = 32;
    blocks_count = 64;
    log_block_size = 0;
    blocks_per_group = 64;
    inodes_per_group = 32;
    magic = 0xEF53;
    inode_size = 128;
  };
  descriptors = set_word (λ b. 0) 8 5;
  tmp_buf = λ b. 0;
  block_size = 1024;
  descriptor_count = 1;
  inodes_per_group = 32;
  disk = record {
    sectors = λ k.
        if k == 10
        then inode_bytes
        else if k == 60
        then entry_bytes
        else if k == 62
        then more_bytes
        else λ b. 0;
    readable = λ k. true;
    writable = λ k. true;
  };
}

abbrev loaded : Buffer
loaded = (read_block 5 small.tmp_buf small).1

abbrev root : Buffer
root b = loaded (128 + b)

root_blocks : word_at root 4 / 1024 ≡ 2
unfolding word_at read_block ide_read read_sectors lba sectors_per_block set_word set_half
root_blocks = refl

root_block : word_at root 40 ≡ 30
unfolding word_at read_block ide_read read_sectors lba sectors_per_block set_word set_half
root_block = refl

second_block : word_at root 44 ≡ 31
unfolding word_at read_block ide_read read_sectors lba sectors_per_block set_word set_half
second_block = refl

abbrev address : ℕ → ℕ
address k = if k == 0 then 30 else 31

resolved :
    (tmp : Buffer) (k : ℕ)
    → k ≤ 1
    → (t : Buffer) × (get_real_block root k (record small { tmp_buf = tmp })
        ≡ ok (address k) (record small { tmp_buf = t }))
resolved tmp zero inside = (
  tmp,
  get_real_block_direct (record small { tmp_buf = tmp }) root 0 (omega arith)
      ∙ ap (λ (a : ℕ). ok a (record small { tmp_buf = tmp })) root_block,
)
resolved tmp (suc zero) inside = (
  tmp,
  get_real_block_direct (record small { tmp_buf = tmp }) root 1 (omega arith)
      ∙ ap (λ (a : ℕ). ok a (record small { tmp_buf = tmp })) second_block,
)
resolved tmp (suc (suc k)) inside = absurd (omega (arith, inside))

mapped : IsMapped small root address 0 0 1
mapped = record {
  resolves = λ tmp k lo hi. resolved tmp k (omega (arith, hi));
  readable = λ k lo hi j h. refl;
  sized = (refl, omega arith, omega arith);
}

abbrev entries : Listing
entries zero = (
  record { inode = 2; len = 12; name = 46 ∷ [] },
  record { inode = 11; len = 1012; name = 97 ∷ [] } ∷ [],
)
entries (suc k) = (record { inode = 12; len = 1024; name = 98 ∷ [] }, [])

held_entries :
    (buf : Buffer) → Holds small 30 buf → HasEntries buf 1024 0 (entries 0).0 (entries 0).1
unfolding half_at word_at block_byte sectors_per_block lba
held_entries buf holds = (
  (
    (holds 8 (omega arith), omega arith, holds 9 (omega arith)),
    omega (
      arith,
      holds 0 (omega arith),
      holds 1 (omega arith),
      holds 2 (omega arith),
      holds 3 (omega arith),
    ),
    omega (arith, holds 4 (omega arith), holds 5 (omega arith)),
  ),
  omega arith,
  (
    (
      (holds 20 (omega arith), omega arith, holds 21 (omega arith)),
      omega (
        arith,
        holds 12 (omega arith),
        holds 13 (omega arith),
        holds 14 (omega arith),
        holds 15 (omega arith),
      ),
      omega (arith, holds 16 (omega arith), holds 17 (omega arith)),
    ),
    omega arith,
    omega arith,
  ),
)

more_entries :
    (buf : Buffer) → Holds small 31 buf → HasEntries buf 1024 0 (entries 1).0 (entries 1).1
unfolding half_at word_at block_byte sectors_per_block lba
more_entries buf holds = (
  (
    (holds 8 (omega arith), omega arith, holds 9 (omega arith)),
    omega (
      arith,
      holds 0 (omega arith),
      holds 1 (omega arith),
      holds 2 (omega arith),
      holds 3 (omega arith),
    ),
    omega (arith, holds 4 (omega arith), holds 5 (omega arith)),
  ),
  omega arith,
  omega arith,
)

held :
    (k : ℕ) (buf : Buffer)
    → k ≤ 1
    → Holds small (address k) buf
    → HasEntries buf 1024 0 (entries k).0 (entries k).1
held zero buf lo holds = held_entries buf holds
held (suc zero) buf lo holds = more_entries buf holds
held (suc (suc k)) buf lo holds = absurd (omega (arith, lo))

shorter : (k : ℕ) → length (entries k).1 < 2
shorter zero = omega arith
shorter (suc k) = omega arith

listing : IsListing small root address 1 mapped entries 2
listing = record { has = held; short = λ k lo. shorter k }

delete_inode_from_dir-first_block_example :
    ((t : Buffer) × (find_in_blocks 2 root 2 0 (λ b. 0) (98 ∷ []) small
        ≡ ok (some 12) (record small { tmp_buf = t })))
    × ((t : Buffer) × (delete_inode_from_dir
            (record { fuel = 9; granted = λ b n. true; bitmap = λ b. 0 })
            2
            true
            true
            (λ b. 0)
            root
            2
            (98 ∷ [])
            small
          ≡ ok (enoent, none, root) (record small { tmp_buf = t })))
unfolding same_text lookup lookup_blocks
delete_inode_from_dir-first_block_example =
    delete_inode_from_dir-first_block small root address 1 mapped entries 2 listing (98 ∷ [])
      (omega arith, tt) (record { fuel = 9; granted = λ b n. true; bitmap = λ b. 0 }) true (λ b. 0)
      2 12 refl refl refl root_blocks (omega arith)
