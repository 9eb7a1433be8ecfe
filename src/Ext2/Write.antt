-- ===== src/Ext2/Write.antt =====
-- Writing a file: `ext2_write` of kernel/src/fs/ext2.c.
pub mod Sectors
use omega_os.Base.{
  ℕ, zero, suc, ◌+◌, ◌-◌, ◌*◌, ◌/◌, ◌%◌, ◌^◌, Bool, true, false, not, Option, none, some, ltb, leb,
  ◌==◌, if◌then◌else◌, add64,
}
use omega_os.Base.Run.{Run, fault, Cmd, pure, ◌>>=◌, ◌>>◌, gets}
use omega_os.Ide.{Buffer, sector_size}
use omega_os.Pmm.{rnd_up}
use omega_os.Ext2.{Ext2, i_size, inode_file, set_word, read_inode, write_inode, copy_into}
use omega_os.Ext2.Blocks.{read_inode_block}
use omega_os.Ext2.Allocate.{write_inode_block}
use omega_os.Ext2.Files.{Node, neg, eio, enomem, eexist, eisdir, espipe, first_count}

-- The inode, the local buffer and `writtenBytes`.
pub record Progress : Type 0 where
  pub inode : Buffer
  pub tmp : Buffer
  pub bytes : ℕ

-- What `writeInodeBlock` is given beside the block: the rounds of its loop, whether each call of
-- `kmalloc` for the block is granted, and what its buffer holds at first.
pub record Grants : Type 0 where
  pub fuel : ℕ
  pub granted : (block n : ℕ) → Bool
  pub bitmap : Buffer

unfoldable pub write_or_fail :
    Grants → (ino block : ℕ) (from : Buffer) (count : ℕ) → Progress → Cmd Ext2 (Bool × Progress)
write_or_fail g ino block from count p = do
  r ← write_inode_block g.fuel (g.granted block) g.bitmap p.inode ino block from
  let q = record p { inode = r.1 }
  if not r.0 then pure (false, q) else pure (true, record q { bytes = p.bytes + count })

-- One round of the loop: whether the block could be written.
unfoldable pub write_part :
    Grants
    → (ino offset size start last : ℕ) (buffer : Buffer) (block : ℕ) → Progress
    → Cmd Ext2 (Bool × Progress)
write_part g ino offset size start last buffer block p = do
  s ← gets (λ s. s)
  if block == start
      then (do
        r ← read_inode_block p.inode block p.tmp
        let count = first_count s.block_size offset size
        let tmp : Buffer = copy_into r.1 (offset % s.block_size) count buffer
        if not r.0
            then pure (false, record p { tmp = r.1 })
            else write_or_fail g ino block tmp count (record p { tmp = tmp }))
      else if block == last
      then (do
        r ← read_inode_block p.inode block p.tmp
        let remaining = add64 offset size % s.block_size
        let tmp : Buffer = copy_into r.1 0 remaining (λ b. buffer (p.bytes + b))
        if not r.0
            then pure (false, record p { tmp = r.1 })
            else write_or_fail g ino block tmp remaining (record p { tmp = tmp }))
      else write_or_fail g ino block (λ b. buffer (p.bytes + b)) s.block_size p

-- The loop, with `n` blocks left. It ends at the first block that cannot be written.
unfoldable pub write_parts :
    Grants
    → (ino offset size start last : ℕ) (buffer : Buffer) (n block : ℕ) → Progress
    → Cmd Ext2 (Bool × Progress)
write_parts g ino offset size start last buffer zero block p = pure (true, p)
write_parts g ino offset size start last buffer (suc n) block p = do
  r ← write_part g ino offset size start last buffer block p
  elim r.0 [
    | true ↦ write_parts g ino offset size start last buffer n (block + 1) r.1
    | false ↦ pure r
  ]

-- The update of the size and of the number of sectors, with `written` as a `ssize_t`, 2 ^ 63 and
-- above the negative ones. The offset is not above the old size.
unfoldable pub update_inode : (offset written old : ℕ) → Buffer → Buffer
update_inode offset written old inode =
    if ltb written (2 ^ 63)
    then (if ltb old (offset + written)
        then (let size = (offset + written) % 2 ^ 32 in
            set_word (set_word inode 4 size) 28 (rnd_up size sector_size / sector_size))
        else inode)
    else inode

-- From the label `end` on.
unfoldable pub finish_write :
    (node : Node) (offset old written : ℕ) (inode : Buffer) → Cmd Ext2 (ℕ × Node)
finish_write node offset old written inode = if written == 0 then pure (0, node) else (do
  let updated : Buffer = update_inode offset written old inode
  fine ← write_inode node.inode updated
  if not fine
      then pure (neg eio, node)
      else pure (written, record node { size = i_size updated; offset = add64 offset written }))

-- From the loop on. The loop ends early when a block cannot be written.
unfoldable pub write_file :
    Grants
    → (inode : Buffer) (node : Node) (offset size : ℕ) (tmp buffer : Buffer) → Cmd Ext2 (ℕ × Node)
write_file g inode node offset size tmp buffer = do
  s ← gets (λ s. s)
  let start = offset / s.block_size
  let last = add64 offset size / s.block_size % 2 ^ 32
  r ←
      write_parts g node.inode offset size start last buffer (last + 1 - start) start
        (record { inode = inode; tmp = tmp; bytes = 0 })
  finish_write node offset (i_size inode) (if r.0 then r.1.bytes else neg eio) r.1.inode

-- The size of the inode is read before the inode is tested.
unfoldable pub ext2_write :
    Grants
    → (granted granted_tmp : Bool) (node : Node) (offset size : ℕ) (tmp buffer : Buffer)
    → Cmd Ext2 (ℕ × Node)
ext2_write g granted granted_tmp node offset size tmp buffer = do
  found ← read_inode granted node.inode
  elim found [
    | none ↦ (λ s. fault)
    | some inode ↦
        if not (inode_file inode)
        then pure (neg eisdir, node)
        else if ltb (i_size inode) offset
        then pure (neg espipe, node)
        else if not granted_tmp
        then pure (neg enomem, node)
        else write_file g inode node offset size tmp buffer
  ]
