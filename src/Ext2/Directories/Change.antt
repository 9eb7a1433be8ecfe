-- ===== src/Ext2/Directories/Change.antt =====
-- Changing a directory's entries: `insertInodeInDir` and `deleteInodeFromDir` of
-- kernel/src/fs/ext2.c. The directory's inode is changed in place, so it is returned.
pub mod Removed
mod Tests
use omega_os.Base.{
  ℕ, zero, suc, ◌+◌, ◌-◌, ◌*◌, ◌/◌, ◌%◌, ◌^◌, Bool, true, false, not, ◌||◌, ◌&&◌, Option, none,
  some, List, [], ◌∷◌, length, ltb, leb, ◌==◌, if◌then◌else◌, put,
}
use omega_os.Base.Run.{Run, ok, fault, out_of_fuel, Cmd, pure, ◌>>=◌, ◌>>◌, gets}
use omega_os.Path.{same_text}
use omega_os.Ide.{Buffer}
use omega_os.Ext2.{
  Ext2, i_size, i_sectors, set_half, set_word, copy_into, add32, sub32, sectors_per_block,
  write_inode,
}
use omega_os.Ext2.Blocks.{get_real_block, read_inode_block}
use omega_os.Ext2.Allocate.{allocate_block, write_inode_block, delete_block, eio, enomem}
use omega_os.Ext2.Write.{Grants}
use omega_os.Ext2.Directories.{entry_inode, rec_len, name_is}

abbrev pub enoent : ℕ
enoent = 2

abbrev pub eacces : ℕ
eacces = 13

abbrev pub name_len : Buffer → ℕ → ℕ
name_len buf at = buf (at + 6)

abbrev pub set_rec_len : Buffer → (at v : ℕ) → Buffer
set_rec_len buf at v = set_half buf (at + 4) v

-- `GET_DIR_ENTRY_SIZE`.
unfoldable pub dir_entry_size : ℕ → ℕ
dir_entry_size nl = let es = 8 + nl + 1 in es + (if es % 2 == 0 then 2 else 1)

-- `strcpy` of a name to the offset `at`.
unfoldable pub put_name : Buffer → (at : ℕ) → List ℕ → Buffer
put_name buf at [] = put buf at 0
put_name buf at (c ∷ name) = put_name (put buf at c) (at + 1) name

-- Where the new entry goes: its offset, `oldSize`, `currentEntrySize`, and the block.
pub record Place : Type 0 where
  pub at : ℕ
  pub old_size : ℕ
  pub entry_size : ℕ
  pub buf : Buffer

-- The loop over the last block: room behind its last entry. `at` is `currentSize`.
unfoldable pub find_place : (fuel block_size : ℕ) → Buffer → (at new : ℕ) → Cmd Ext2 (Option Place)
find_place zero block_size buf at new = λ s. out_of_fuel
find_place (suc fuel) block_size buf at new =
    let len = rec_len buf at in
    let used = dir_entry_size (name_len buf at) in
    if not (leb block_size (add32 at len))
    then find_place fuel block_size buf (at + len) new
    else if leb (used + new) len
    then pure (
        some (record {
          at = at + used;
          old_size = len;
          entry_size = used;
          buf = set_rec_len buf at used;
        }))
    else pure none

-- From the label `write` on.
unfoldable pub write_entry :
    Grants
    → (pino new_ino file_type : ℕ) (name : List ℕ) (inode : Buffer) (block : ℕ) → Place
    → Cmd Ext2 (Bool × Buffer)
write_entry g pino new_ino file_type name inode block p =
    let numbered : Buffer = set_word p.buf p.at new_ino in
    let named : Buffer = put (put_name numbered (p.at + 8) name) (p.at + 6) (length name % 256) in
    let sized : Buffer = set_rec_len named p.at (sub32 p.old_size p.entry_size % 2 ^ 16) in
    write_inode_block g.fuel (g.granted block) g.bitmap inode pino block
      (put sized (p.at + 7) file_type)

-- `granted_bitmap` answers the call of `kmalloc` in `allocateBlock`.
unfoldable pub insert_inode_in_dir :
    Grants
    → (fuel : ℕ) (granted granted_bitmap : Bool) (tmp inode : Buffer) (pino new_ino file_type : ℕ)
      (name : List ℕ)
    → Cmd Ext2 (Bool × Buffer)
insert_inode_in_dir g fuel granted granted_bitmap tmp inode pino new_ino file_type name =
    if not granted then pure (false, inode) else (do
      s ← gets (λ s. s)
      let last = sub32 (i_size inode / s.block_size) 1
      r ← read_inode_block inode last tmp
      if not r.0 then pure (false, inode) else (do
        place ←
            (if last == 2 ^ 32 - 1
              then pure none
              else find_place fuel s.block_size r.1 0 (dir_entry_size (length name)))
        elim place [
          | some p ↦ write_entry g pino new_ino file_type name inode last p
          | none ↦ do
            let next = add32 last 1
            a ← allocate_block granted_bitmap g.bitmap inode pino next
            if not a.0 then pure a else (do
              t ← read_inode_block a.1 next r.1
              if not t.0
                  then pure (false, a.1)
                  else write_entry g pino new_ino file_type name a.1 next
                      (record { at = 0; old_size = s.block_size; entry_size = 0; buf = t.1 }))
        ]))

-- The inner loop of `deleteInodeFromDir`: the offsets of the entry and of the one before it.
unfoldable pub find_entry :
    (fuel block_size : ℕ)
    → Buffer
    → (at : ℕ) (prev : Option ℕ) (name : List ℕ) → Cmd Ext2 (Option (ℕ × Option ℕ))
find_entry zero block_size buf at prev name = λ s. out_of_fuel
find_entry (suc fuel) block_size buf at prev name =
    if name_is buf (at + 8) name
    then pure (some (at, prev))
    else if leb block_size (add32 at (rec_len buf at))
    then pure none
    else find_entry fuel block_size buf (at + rec_len buf at) (some at) name

-- The search for the last entry, from the one at `at`, where `size` is `csTmp`.
unfoldable pub last_entry : (fuel block_size : ℕ) → Buffer → (at size : ℕ) → Cmd Ext2 ℕ
last_entry zero block_size buf at size = λ s. out_of_fuel
last_entry (suc fuel) block_size buf at size =
    let next = add32 size (rec_len buf at) in
    if leb block_size next
    then pure at
    else last_entry fuel block_size buf (at + rec_len buf at) next

-- The status, what `*ino` is set to, and the inode.
abbrev pub Deleted : Type 0
Deleted = ℕ × Option ℕ × Buffer

-- The block is written, and the status says whether it was.
unfoldable pub write_entries :
    Grants → (pino : ℕ) (inode : Buffer) (block : ℕ) → Buffer → Cmd Ext2 (ℕ × Buffer)
write_entries g pino inode block buf = do
  r ← write_inode_block g.fuel (g.granted block) g.bitmap inode pino block buf
  pure (if r.0 then 0 else eio, r.1)

-- The only entry of the block: the block is given back.
unfoldable pub delete_only :
    Grants → (granted : Bool) (pino : ℕ) (inode : Buffer) (block : ℕ) → Cmd Ext2 (ℕ × Buffer)
delete_only g granted pino inode block = do
  real ← get_real_block inode block
  status ← delete_block granted g.bitmap real
  if not (status == 0) then pure (status, inode) else (do
    s ← gets (λ s. s)
    let less : Buffer = set_word inode 28 (sub32 (i_sectors inode) (sectors_per_block s))
    let smaller : Buffer = set_word less 4 (sub32 (i_size less) s.block_size)
    fine ← write_inode pino smaller
    pure (if fine then 0 else eio, smaller))

-- The last of several entries: the one before it takes its space.
unfoldable pub delete_last :
    Grants
    → (pino : ℕ) (inode : Buffer) (block : ℕ) → Buffer
    → (at : ℕ) (prev : Option ℕ) → Cmd Ext2 (ℕ × Buffer)
delete_last g pino inode block buf at none = λ s. fault
delete_last g pino inode block buf at (some p) =
    write_entries g pino inode block (set_rec_len buf p ((rec_len buf p + rec_len buf at) % 2 ^ 16))

-- From the label `delete_middle_entry` on: the entries behind move to the left.
unfoldable pub delete_middle :
    Grants
    → (fuel pino : ℕ) (inode : Buffer) (block : ℕ) → Buffer
    → (at : ℕ) → Cmd Ext2 (ℕ × Buffer)
delete_middle g fuel pino inode block buf at = do
  s ← gets (λ s. s)
  let len = rec_len buf at
  let moved : Buffer = copy_into buf at (s.block_size - len - at) (λ b. buf (at + len + b))
  last ← last_entry fuel s.block_size moved 0 (add32 at len)
  write_entries g pino inode block (set_rec_len moved last ((rec_len moved last + len) % 2 ^ 16))

unfoldable pub delete_entry :
    Grants
    → (fuel : ℕ) (granted : Bool) (pino : ℕ) (inode : Buffer) (block : ℕ) → Buffer
    → (at : ℕ) (prev : Option ℕ) → Cmd Ext2 (ℕ × Buffer)
delete_entry g fuel granted pino inode block buf at prev = do
  s ← gets (λ s. s)
  if (at == 0) && leb s.block_size (rec_len buf at)
      then delete_only g granted pino inode block
      else if leb s.block_size (add32 at (rec_len buf at))
      then delete_last g pino inode block buf at prev
      else delete_middle g fuel pino inode block buf at

-- How a round of the loop over the blocks ends: it leaves the function, or the loop goes on.
pub data Round : Type 0 where
  leave : Deleted → Round
  next : Round

-- One round, for a block of the directory. The end of the block's entries is a `goto end`.
unfoldable pub delete_round :
    Grants
    → (fuel : ℕ) (granted_bitmap : Bool) (tmp inode : Buffer) (pino : ℕ) (name : List ℕ) (block : ℕ)
    → Cmd Ext2 Round
delete_round g fuel granted_bitmap tmp inode pino name block = do
  r ← read_inode_block inode block tmp
  s ← gets (λ s. s)
  if not r.0 then pure (leave (enoent, none, inode)) else (do
    found ← find_entry fuel s.block_size r.1 0 none name
    elim found [
      | none ↦ pure (leave (enoent, none, inode))
      | some (at, prev) ↦ do
        d ← delete_entry g fuel granted_bitmap pino inode block r.1 at prev
        pure (leave (d.0, some (entry_inode r.1 at), d.1))
    ])

-- The loop over the blocks, with `n` left. Behind it the entry at `dir` is read, the null pointer.
unfoldable pub delete_rounds :
    Grants
    → (fuel : ℕ) (granted_bitmap : Bool) (tmp inode : Buffer) (pino : ℕ) (name : List ℕ)
      (n block : ℕ)
    → Cmd Ext2 Deleted
delete_rounds g fuel granted_bitmap tmp inode pino name zero block = λ s. fault
delete_rounds g fuel granted_bitmap tmp inode pino name (suc n) block = do
  round ← delete_round g fuel granted_bitmap tmp inode pino name block
  elim round [
    | leave d ↦ pure d
    | next ↦ delete_rounds g fuel granted_bitmap tmp inode pino name n (block + 1)
  ]

unfoldable pub delete_inode_from_dir :
    Grants
    → (fuel : ℕ) (granted granted_bitmap : Bool) (tmp inode : Buffer) (pino : ℕ) (name : List ℕ)
    → Cmd Ext2 Deleted
delete_inode_from_dir g fuel granted granted_bitmap tmp inode pino name =
    if same_text name (46 ∷ []) || same_text name (46 ∷ 46 ∷ [])
    then pure (eacces, none, inode)
    else if not granted
    then pure (enomem, none, inode)
    else (do
      s ← gets (λ s. s)
      delete_rounds g fuel granted_bitmap tmp inode pino name (i_size inode / s.block_size) 0)
