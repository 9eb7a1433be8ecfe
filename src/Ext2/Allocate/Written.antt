-- ===== src/Ext2/Allocate/Written.antt =====
-- Reading back what `writeInodeBlock` of kernel/src/fs/ext2.c has written.
use omega_os.Base.{
  ℕ, suc, ◌+◌, ◌*◌, ◌/◌, ◌%◌, ◌^◌, ◌≤◌, ◌<◌, ◌≡◌, refl, true, false, leb, ap, ◌∙◌, arith, Bool,
}
use omega_os.Base.Run.{ok}
use omega_os.Ide.{Buffer, Disk, lba, ide_write, write_sectors}
use omega_os.Ide.Sectors.{AllWritten, write_sectors-AllWritten}
use omega_os.Ext2.{
  Ext2, i_block, i_sectors, mul32, sectors_per_block, sector_to_block, write_block, read_block,
}
use omega_os.Ext2.Blocks.{read_inode_block}
use omega_os.Ext2.Blocks.Address.{
  block_byte, Readable, IsSized, read_block-Holds, get_real_block_direct,
}
use omega_os.Ext2.Allocate.{grow_inode, write_inode_block}

-- The block lies on the disk and its sectors take what is written.
pub record IsWritable (s : Ext2) (block : ℕ) : Type 0 where
  pub fits : block * sectors_per_block s + sectors_per_block s ≤ 2 ^ 28
  pub takes :
      (k : ℕ)
      → k < sectors_per_block s
      → s.disk.writable (lba (mul32 block (sectors_per_block s) + k)) ≡ true

-- A write that leaves the block holding the buffer, and readable if it was.
abbrev Stored : Ext2 → (block : ℕ) → Buffer → Disk → Type 0
Stored s block buffer d =
    (write_block block buffer s ≡ ok true (record s { disk = d }))
    × (d.readable ≡ s.disk.readable)
    × ((b : ℕ) → b < s.block_size → block_byte (record s { disk = d }) block b ≡ buffer b)

write_block-Stored :
    (s : Ext2) (block : ℕ) (buffer : Buffer)
    → IsSized s
    → IsWritable s block
    → (d : Disk) × Stored s block buffer d
unfolding write_block ide_write block_byte sectors_per_block
write_block-Stored s block buffer sized w =
    let n = sectors_per_block s in
    let d = write_sectors (mul32 block n) n 0 buffer s.disk in
    let (r, t, bytes, others) : AllWritten (mul32 block n) n 0 buffer s.disk d =
      write_sectors-AllWritten (mul32 block n) n 0 buffer s.disk (omega (arith, w.fits)) w.takes in
    (d, (refl, r, λ b h. bytes (b / 512) (b % 512) (omega arith) ∙ ap buffer (omega arith)))

grow_inode-grown :
    (fuel : ℕ) (granted : ℕ → Bool) (bitmap inode : Buffer) (ino block : ℕ) (s : Ext2)
    → block < sector_to_block s (i_sectors inode)
    → grow_inode (suc fuel) granted bitmap inode ino block s ≡ ok (true, inode) s
unfolding grow_inode
grow_inode-grown fuel granted bitmap inode ino block s h =
    let e : leb (sector_to_block s (i_sectors inode)) block ≡ false = ground arith in
    rw (grow_inode, e) refl

-- `writeInodeBlock` of a direct block that the file has already, and that the disk reads and writes,
-- succeeds without a new block, and `readInodeBlock` then gives back the bytes written.
pub read_inode_block-write_inode_block :
    (fuel : ℕ) (granted : ℕ → Bool) (bitmap inode : Buffer) (ino block : ℕ) (buffer buf : Buffer)
    (s : Ext2)
    → IsSized s
    → block < 12
    → block < sector_to_block s (i_sectors inode)
    → IsWritable s (i_block inode block)
    → Readable s (i_block inode block)
    → (s' : Ext2) × (buf' : Buffer) × (write_inode_block
          (suc fuel)
          granted
          bitmap
          inode
          ino
          block
          buffer
          s
        ≡ ok (true, inode) s')
      × (read_inode_block inode block buf s' ≡ ok (true, buf') s')
      × ((b : ℕ) → b < s.block_size → buf' b ≡ buffer b)
unfolding write_inode_block read_inode_block sectors_per_block
read_inode_block-write_inode_block fuel granted bitmap inode ino block buffer buf s sized direct old
      w r =
    let real = i_block inode block in
    let (d, (written, same, stored)) = write_block-Stored s real buffer sized w in
    let s' : Ext2 = record s { disk = d } in
    let (fine, holds) =
      read_block-Holds real buf s' sized (λ k h.
        ap (λ (f : ℕ → Bool). f (lba (mul32 real (sectors_per_block s) + k))) same ∙ r k h) in
    (
      s',
      (read_block real buf s').1,
      rw
          (
            grow_inode-grown fuel granted bitmap inode ino block s old,
            get_real_block_direct s inode block direct,
            written,
          )
          refl,
      rw (get_real_block_direct s' inode block direct, ← fine) refl,
      λ b h. holds b h ∙ stored b h,
    )
