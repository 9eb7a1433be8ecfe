-- ===== src/Ext2/Files.antt =====
-- Reading a file: `ext2_read` of kernel/src/fs/ext2.c.
pub mod Reading
use omega_os.Base.{
  ℕ, zero, suc, ◌+◌, ◌-◌, ◌*◌, ◌/◌, ◌%◌, ◌^◌, Bool, true, false, not, Option, none, some, ltb, leb,
  ◌==◌, if◌then◌else◌, add64,
}
use omega_os.Base.Run.{Run, Cmd, pure, ◌>>=◌, ◌>>◌, gets}
use omega_os.Ide.{Buffer}
use omega_os.Ext2.{Ext2, i_size, inode_file, read_inode, copy_into}
use omega_os.Ext2.Blocks.{read_inode_block}

-- Of a `VfsNode_t` what the functions use.
pub record Node : Type 0 where
  pub inode : ℕ
  pub offset : ℕ
  pub size : ℕ

-- A negative `ssize_t`.
abbrev pub neg : ℕ → ℕ
neg e = 2 ^ 64 - e

abbrev pub eio : ℕ
eio = 5

abbrev pub enomem : ℕ
enomem = 12

abbrev pub eexist : ℕ
eexist = 17

abbrev pub eisdir : ℕ
eisdir = 21

abbrev pub espipe : ℕ
espipe = 29

-- The local buffer, the caller's buffer and `readBytes`.
pub record Progress : Type 0 where
  pub tmp : Buffer
  pub out : Buffer
  pub bytes : ℕ

-- `intrnCount`.
unfoldable pub first_count : (block_size offset size : ℕ) → ℕ
first_count block_size offset size =
    let intern_offset = offset % block_size in
    if leb (add64 size intern_offset) block_size then size else block_size - intern_offset

-- One round of the loop: whether the block could be read.
unfoldable pub read_part :
    (inode : Buffer) (offset size start last block : ℕ) → Progress → Cmd Ext2 (Bool × Progress)
read_part inode offset size start last block p = do
  s ← gets (λ s. s)
  if block == start
      then (do
        r ← read_inode_block inode block p.tmp
        let count = first_count s.block_size offset size
        if not r.0
            then pure (false, record p { tmp = r.1 })
            else pure (
              true,
              record {
                tmp = r.1;
                out = copy_into p.out 0 count (λ b. r.1 (offset % s.block_size + b));
                bytes = p.bytes + count;
              },
            ))
      else if block == last
      then (do
        r ← read_inode_block inode block p.tmp
        let remaining = add64 offset size % s.block_size
        if not r.0
            then pure (false, record p { tmp = r.1 })
            else pure (
              true,
              record {
                tmp = r.1;
                out = copy_into p.out p.bytes remaining r.1;
                bytes = p.bytes + remaining;
              },
            ))
      else (do
        r ← read_inode_block inode block (λ b. p.out (p.bytes + b))
        let out : Buffer = λ b. if ltb b p.bytes then p.out b else r.1 (b - p.bytes)
        if not r.0
            then pure (false, record p { out = out })
            else pure (true, record p { out = out; bytes = p.bytes + s.block_size }))

-- The loop, with `n` blocks left. It ends at the first block that cannot be read.
unfoldable pub read_parts :
    (inode : Buffer) (offset size start last n block : ℕ) → Progress → Cmd Ext2 (Bool × Progress)
read_parts inode offset size start last zero block p = pure (true, p)
read_parts inode offset size start last (suc n) block p = do
  r ← read_part inode offset size start last block p
  elim r.0 [ true ↦ read_parts inode offset size start last n (block + 1) r.1 | false ↦ pure r ]

-- The behaviour from the loop on.
unfoldable pub read_file :
    (inode : Buffer) (node : Node) (offset size : ℕ) (tmp buffer : Buffer)
    → Cmd Ext2 (ℕ × Node × Buffer)
read_file inode node offset size tmp buffer = do
  s ← gets (λ s. s)
  let start = offset / s.block_size
  let last = add64 offset size / s.block_size % 2 ^ 32
  r ←
      read_parts inode offset size start last (last + 1 - start) start
        (record { tmp = tmp; out = buffer; bytes = 0 })
  if r.0
      then pure (r.1.bytes, record node { offset = add64 offset r.1.bytes }, r.1.out)
      else pure (neg eio, node, r.1.out)

-- `tmp` is what the local buffer holds when it is allocated.
unfoldable pub ext2_read :
    (granted granted_tmp : Bool) (node : Node) (offset size : ℕ) (tmp buffer : Buffer)
    → Cmd Ext2 (ℕ × Node × Buffer)
ext2_read granted granted_tmp node offset size tmp buffer = do
  found ← read_inode granted node.inode
  elim found [
    | none ↦ pure (neg eexist, node, buffer)
    | some inode ↦
        if not (inode_file inode)
        then pure (neg eisdir, node, buffer)
        else if ltb (i_size inode) (add64 size offset)
        then pure (neg espipe, node, buffer)
        else if not granted_tmp
        then pure (neg enomem, node, buffer)
        else read_file inode node offset size tmp buffer
  ]
