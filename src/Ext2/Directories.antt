-- ===== src/Ext2/Directories.antt =====
-- Looking up names: `ino2vfs`, `ext2_finddir` and `ext2_readdir` of kernel/src/fs/ext2.c. A name is
-- the list of its bytes, without the null byte.
pub mod Lookup
pub mod Change
mod Tests
use Prim.Native.Nat.{bit_and, bit_or}
use omega_os.Base.{
  ℕ, zero, suc, ◌+◌, ◌-◌, ◌*◌, ◌/◌, ◌%◌, ◌^◌, Bool, true, false, not, ◌&&◌, Option, none, some,
  List, [], ◌∷◌, ltb, leb, ◌==◌, if◌then◌else◌,
}
use omega_os.Base.Run.{Run, ok, out_of_fuel, Cmd, pure, ◌>>=◌, ◌>>◌, gets}
use omega_os.Ide.{Buffer}
use omega_os.Ext2.{
  Ext2, half_at, word_at, i_mode, i_size, get_flags, has_flags, inode_dir, read_inode, add32,
}
use omega_os.Ext2.Blocks.{read_inode_block}

-- The fields of a `Directory_t` in the buffer at offset `at`.
abbrev pub entry_inode : Buffer → ℕ → ℕ
entry_inode buf at = word_at buf at

abbrev pub rec_len : Buffer → ℕ → ℕ
rec_len buf at = half_at buf (at + 4)

-- `!strcmp(dir->name, name)`, of the string at offset `at`.
unfoldable pub name_is : Buffer → (at : ℕ) → (name : List ℕ) → Bool
name_is buf at [] = buf at == 0
name_is buf at (c ∷ name) = (buf at == c) && name_is buf (at + 1) name

-- The string at offset `at`, or `none` when it is not shorter than the fuel.
unfoldable pub name_at : (fuel : ℕ) → Buffer → (at : ℕ) → Option (List ℕ)
name_at zero buf at = none
name_at (suc fuel) buf at =
    let rest = name_at fuel buf (at + 1) in
    if buf at == 0 then some [] else elim rest [ none ↦ none | some cs ↦ some (buf at ∷ cs) ]

-- What the pointers to the calls on directories are.
pub data Calls : Type 0 where
  as_allocated null_pointers of_ext2 : Calls

-- A `VfsNode_t`, without the times and the calls that are the same for all nodes.
pub record VfsNode : Type 0 where
  pub inode : ℕ
  pub name : List ℕ
  pub uid : ℕ
  pub gid : ℕ
  pub size : ℕ
  pub mode : ℕ
  pub offset : ℕ
  pub flags : ℕ
  pub calls : Calls

-- The `if`s that set the flags. They read the memory that `kmalloc` has returned.
unfoldable pub node_flags : (flags mask : ℕ) → ℕ
node_flags flags mask =
    let file = if has_flags mask 0x8000 then bit_or flags 0x1 else flags in
    let dir = if has_flags mask 0x4000 then bit_or file 0x2 else file in
    let block = if has_flags mask 0x6000 then bit_or dir 0x8 else dir in
    let char = if has_flags mask 0x2000 then bit_or block 0x4 else block in
    let fifo = if has_flags mask 0x1000 then bit_or char 0x10 else char in
    if has_flags mask 0xA000 then bit_or fifo 0x40 else fifo

unfoldable pub node_calls : (mask : ℕ) → Calls
node_calls mask =
    if has_flags mask 0x4000
    then of_ext2
    else if has_flags mask 0x8000
    then null_pointers
    else as_allocated

-- `flags` is what the memory of the new node holds.
unfoldable pub ino2vfs :
    (granted granted_node : Bool) (flags ino : ℕ) (name : List ℕ) → Cmd Ext2 (Option VfsNode)
ino2vfs granted granted_node flags ino name = do
  found ← read_inode granted ino
  elim found [
    | none ↦ pure none
    | some inode ↦
        if not granted_node
        then pure none
        else pure (
            some (record {
              inode = ino;
              name = name;
              uid = half_at inode 2;
              gid = half_at inode 24;
              size = i_size inode;
              mode = bit_and (i_mode inode) 0xFFF;
              offset = 0;
              flags = node_flags flags (get_flags (i_mode inode));
              calls = node_calls (get_flags (i_mode inode));
            }))
  ]

-- The inner loop of `ext2_finddir`: the offset of the entry with the name, if the block has one.
-- `at` is `currentSize`, which is also the offset of the entry.
unfoldable pub find_in_block :
    (fuel block_size : ℕ) → Buffer → (at : ℕ) (name : List ℕ) → Cmd Ext2 (Option ℕ)
find_in_block zero block_size buf at name = λ s. out_of_fuel
find_in_block (suc fuel) block_size buf at name =
    if name_is buf (at + 8) name
    then pure (some at)
    else if leb block_size (add32 at (rec_len buf at))
    then pure none
    else find_in_block fuel block_size buf (at + rec_len buf at) name

-- The outer loop with `n` blocks left: the inode's number, if the name is found.
unfoldable pub find_in_blocks :
    (fuel : ℕ) (inode : Buffer) (n block : ℕ) → Buffer → (name : List ℕ) → Cmd Ext2 (Option ℕ)
find_in_blocks fuel inode zero block tmp name = pure none
find_in_blocks fuel inode (suc n) block tmp name = do
  r ← read_inode_block inode block tmp
  s ← gets (λ s. s)
  if not r.0 then pure none else (do
    found ← find_in_block fuel s.block_size r.1 0 name
    elim found [
      | some at ↦ pure (some (entry_inode r.1 at))
      | none ↦ find_in_blocks fuel inode n (block + 1) r.1 name
    ])

-- `granted` are the answers of `kmalloc` for the directory's inode, the buffer, the found inode and
-- the node. The node gets the name in the entry, which is the one that was looked for.
unfoldable pub ext2_finddir :
    (fuel : ℕ) (granted : ℕ → Bool) (tmp : Buffer) (flags ino : ℕ) (name : List ℕ)
    → Cmd Ext2 (Option VfsNode)
ext2_finddir fuel granted tmp flags ino name = do
  dir ← read_inode (granted 0) ino
  elim dir [
    | none ↦ pure none
    | some inode ↦
        if not (inode_dir inode) then pure none else if not (granted 1) then pure none else (do
          s ← gets (λ s. s)
          found ← find_in_blocks fuel inode (i_size inode / s.block_size) 0 tmp name
          elim found [
            | none ↦ pure none
            | some child ↦ ino2vfs (granted 2) (granted 3) flags child name
          ])
  ]

-- The inner loop of `ext2_readdir`, with `i` entries to pass over: the offset of the entry, or how
-- many are left behind the block.
pub data Seek : Type 0 where
  here : ℕ → Seek
  behind : ℕ → Seek

unfoldable pub seek_in_block : (fuel block_size : ℕ) → Buffer → (at i : ℕ) → Cmd Ext2 Seek
seek_in_block zero block_size buf at i = λ s. out_of_fuel
seek_in_block (suc fuel) block_size buf at i =
    if i == 0
    then pure (here at)
    else if leb block_size (add32 at (rec_len buf at))
    then pure (behind (i - 1))
    else seek_in_block fuel block_size buf (at + rec_len buf at) (i - 1)

-- The outer loop: the inode's number and the name.
unfoldable pub seek_in_blocks :
    (fuel : ℕ) (granted : Bool) (inode : Buffer) (n block : ℕ)
    → Buffer
    → (i : ℕ) → Cmd Ext2 (Option (ℕ × List ℕ))
seek_in_blocks fuel granted inode zero block tmp i = pure none
seek_in_blocks fuel granted inode (suc n) block tmp i = do
  r ← read_inode_block inode block tmp
  s ← gets (λ s. s)
  if not r.0 then pure none else (do
    sought ← seek_in_block fuel s.block_size r.1 0 i
    elim sought [
      | behind left ↦ seek_in_blocks fuel granted inode n (block + 1) r.1 left
      | here at ↦ if not granted then pure none else elim (name_at fuel r.1 (at + 8)) [
        | none ↦ λ s. out_of_fuel
        | some name ↦ pure (some (entry_inode r.1 at, name))
      ]
    ])

unfoldable pub ext2_readdir :
    (fuel : ℕ) (granted : ℕ → Bool) (tmp : Buffer) (ino index : ℕ) → Cmd Ext2 (Option (ℕ × List ℕ))
ext2_readdir fuel granted tmp ino index = do
  dir ← read_inode (granted 0) ino
  elim dir [
    | none ↦ pure none
    | some inode ↦
        if not (inode_dir inode) then pure none else if not (granted 1) then pure none else (do
          s ← gets (λ s. s)
          seek_in_blocks fuel (granted 2) inode (i_size inode / s.block_size) 0 tmp index)
  ]
