-- ===== src/Ext2/Write/Sectors.antt =====
-- The size and the number of sectors that `ext2_write` of kernel/src/fs/ext2.c records.
use native.Mathlib.Nat.{div-eq_of_lt-le, div-add-mod'}
use omega_os.Base.{
  refl, if◌then◌else◌, Bool, not, leb, ap, ◌∙◌, suc, ℕ, ◌+◌, ◌*◌, ◌/◌, ◌%◌, ◌^◌, ◌≤◌, ◌<◌, ◌≡◌,
  true, false, ltb, arith,
}
use omega_os.Base.Run.{Run, ok, panicked, fault, deadlock, out_of_fuel, Cmd, pure, ◌>>=◌, and_then}
use omega_os.Ide.{Buffer, sector_size}
use omega_os.Pmm.{rnd_up}
use omega_os.Ext2.{Ext2, write_block, i_size, i_sectors, word_at, set_word, sector_to_block}
use omega_os.Ext2.Blocks.{get_real_block}
use omega_os.Ext2.Allocate.{allocate_block, grow_inode, write_inode_block}
use omega_os.Ext2.Write.{update_inode}

word_at-set_word : (buf : Buffer) (a v : ℕ) → v < 2 ^ 32 → word_at (set_word buf a v) a ≡ v
unfolding word_at set_word
word_at-set_word buf a v small = ground arith

word_at-set_word_other : (buf : Buffer) (v : ℕ) → word_at (set_word buf 28 v) 4 ≡ word_at buf 4
unfolding word_at set_word
word_at-set_word_other buf v = ground arith

-- A length that is more than `n`, and less than a block behind the start of the last, begun block,
-- fills as many blocks as `n`.
blocks_same : (m n bs : ℕ) → n < m → m ≤ n + 512 → n % bs + 512 < bs → m / bs ≡ n / bs
blocks_same m n bs more near room =
    let whole : n / bs * bs + n % bs ≡ n = div-add-mod' n bs in
    div-eq_of_lt-le bs (omega (arith, more, whole)) (omega (arith, near, room, whole))

-- The number of blocks that `SECTOR2BLOCK` gives for the sectors of a size.
sectors-sector_to_block :
    (s : Ext2) (n : ℕ)
    → 512 ≤ n
    → n + 512 < 2 ^ 32
    → n % s.block_size + 512 < s.block_size
    → sector_to_block s (rnd_up n sector_size / sector_size) ≡ n / s.block_size
unfolding sector_to_block rnd_up
sectors-sector_to_block s n big small room =
    let e : ltb n 512 ≡ false = ground (arith, big) in
    rw e (
      blocks_same ((n / 512 * 512 / 512 + 1) % 2 ^ 32 * 512 % 2 ^ 32) n s.block_size
        (omega (arith, small)) (omega (arith, small)) room)

update_inode-i_size :
    (offset written old : ℕ) (inode : Buffer)
    → old < offset + written
    → offset + written < 2 ^ 32
    → (i_size (update_inode offset written old inode) ≡ offset + written)
      × (i_sectors (update_inode offset written old inode)
          ≡ rnd_up (offset + written) sector_size / sector_size)
unfolding update_inode rnd_up
update_inode-i_size offset written old inode longer small =
    let n = offset + written in
    let a : ltb written (2 ^ 63) ≡ true = ground (arith, small) in
    let b : ltb old n ≡ true = ground (arith, longer) in
    let fits : n % 2 ^ 32 ≡ n = omega (arith, small) in
    (
      rw
          (
            update_inode,
            a,
            b,
            fits,
            word_at-set_word_other (set_word inode 4 n) (rnd_up n sector_size / sector_size),
          )
          (word_at-set_word inode 4 n (omega (arith, small))),
      rw (update_inode, a, b, fits)
          (word_at-set_word (set_word inode 4 n) 28 (rnd_up n sector_size / sector_size)
            (ground (arith, small))),
    )

-- What `writeInodeBlock` does behind a call of `allocateBlock`.
abbrev pub go_on :
    (fuel : ℕ) (granted : ℕ → Bool) (bitmap : Buffer) (ino block : ℕ) (buffer : Buffer)
    → Bool × Buffer
    → Cmd Ext2 (Bool × Buffer)
go_on fuel granted bitmap ino block buffer r =
    if not r.0
    then pure (false, r.1)
    else write_inode_block fuel granted bitmap r.1 ino block buffer

bind_go_on :
    (fuel : ℕ) (granted : ℕ → Bool) (bitmap : Buffer) (ino block : ℕ) (buffer : Buffer)
    (allocated : Run Ext2 (Bool × Buffer))
    → and_then
        (and_then allocated (λ r.
          if not r.0 then pure (false, r.1) else grow_inode fuel granted bitmap r.1 ino block))
        (λ r. if not r.0 then pure (false, r.1) else (do
          real ← get_real_block r.1 block
          fine ← write_block real buffer
          pure (fine, r.1)))
      ≡ and_then allocated (go_on fuel granted bitmap ino block buffer)
unfolding write_inode_block
bind_go_on fuel granted bitmap ino block buffer (ok (true, inode) s) = refl
bind_go_on fuel granted bitmap ino block buffer (ok (false, inode) s) = refl
bind_go_on fuel granted bitmap ino block buffer panicked = refl
bind_go_on fuel granted bitmap ino block buffer fault = refl
bind_go_on fuel granted bitmap ino block buffer deadlock = refl
bind_go_on fuel granted bitmap ino block buffer out_of_fuel = refl

-- `writeInodeBlock` to the block behind those that the sectors stand for allocates it.
write_inode_block-allocates :
    (fuel : ℕ) (granted : ℕ → Bool) (bitmap inode : Buffer) (ino block : ℕ) (buffer : Buffer)
    (s : Ext2)
    → sector_to_block s (i_sectors inode) ≡ block
    → write_inode_block (suc fuel) granted bitmap inode ino block buffer s
      ≡ and_then
          (allocate_block (granted fuel) bitmap inode ino block s)
          (go_on fuel granted bitmap ino block buffer)
unfolding write_inode_block grow_inode
write_inode_block-allocates fuel granted bitmap inode ino block buffer s e =
    let missing : leb block block ≡ true = ground arith in
    rw (grow_inode, e, missing)
      (bind_go_on fuel granted bitmap ino block buffer
        (allocate_block (granted fuel) bitmap inode ino block s))

-- The size and the sectors that the end of `ext2_write` gives an inode whose file has become longer:
-- the size is that of the file, but when its last block is begun and has more than a sector left,
-- `SECTOR2BLOCK` of the sectors is the number of that block, as if the file did not have it. The next
-- `writeInodeBlock` to that block therefore begins with `allocateBlock` for it, and goes on with what
-- that returns. The new size is at least a sector, and is far from the end of `uint32_t`.
pub update_inode-sectors :
    (s : Ext2) (offset written old : ℕ) (inode : Buffer) (fuel : ℕ) (granted : ℕ → Bool)
    (bitmap : Buffer) (ino : ℕ) (buffer : Buffer)
    → old < offset + written
    → 512 ≤ offset + written
    → offset + written + 512 < 2 ^ 32
    → 0 < (offset + written) % s.block_size
    → (offset + written) % s.block_size + 512 < s.block_size
    → let inode' : Buffer = update_inode offset written old inode in
      let block : ℕ = (offset + written) / s.block_size in
      (i_size inode' ≡ offset + written)
      × (block * s.block_size < i_size inode')
      × (sector_to_block s (i_sectors inode') ≡ block)
      × (write_inode_block (suc fuel) granted bitmap inode' ino block buffer s
          ≡ and_then
              (allocate_block (granted fuel) bitmap inode' ino block s)
              (go_on fuel granted bitmap ino block buffer))
update_inode-sectors s offset written old inode fuel granted bitmap ino buffer longer big small part
      room =
    let n = offset + written in
    let inode' : Buffer = update_inode offset written old inode in
    let (size, sectors) =
      update_inode-i_size offset written old inode longer (omega (arith, small)) in
    let count : sector_to_block s (i_sectors inode') ≡ n / s.block_size =
      ap (sector_to_block s) sectors ∙ sectors-sector_to_block s n big small room in
    let inside : n / s.block_size * s.block_size < i_size inode' =
      omega (arith, size, part, div-add-mod' n s.block_size) in
    (
      size,
      inside,
      count,
      write_inode_block-allocates fuel granted bitmap inode' ino (n / s.block_size) buffer s count,
    )
