-- ===== src/Ext2/Directories/Lookup.antt =====
-- What the loops of `ext2_finddir` in kernel/src/fs/ext2.c find.
use omega_os.Base.{
  ℕ, zero, suc, ◌+◌, ◌/◌, ◌^◌, ◌≤◌, ◌<◌, ◌≡◌, ◌≢◌, refl, sym, ◌∙◌, ap, Bool, true, false, Option,
  none, some, List, [], ◌∷◌, leb, if◌then◌else◌, length, Bool-cases, Option-cases, inl, inr, arith,
}
use omega_os.Base.Run.{Run, ok}
use omega_os.Path.{same_text}
use omega_os.Ide.{Buffer}
use omega_os.Ext2.{Ext2, i_size, inode_dir, read_inode, add32}
use omega_os.Ext2.Blocks.Address.{Holds}
use omega_os.Ext2.Files.Reading.{IsMapped, block_read}
use omega_os.Ext2.Directories.{
  entry_inode, rec_len, name_is, find_in_block, find_in_blocks, ext2_finddir, ino2vfs,
}

-- An entry of a directory.
pub record Entry : Type 0 where
  pub inode : ℕ
  pub len : ℕ
  pub name : List ℕ

-- The first entry with a name.
unfoldable pub lookup : (name : List ℕ) → List Entry → Option ℕ
lookup name [] = none
lookup name (e ∷ es) =
    let rest = lookup name es in if same_text e.name name then some e.inode else rest

-- The string at an offset is the name.
abbrev pub HasName : Buffer → (at : ℕ) → List ℕ → Type 0
HasName buf at [] = buf at ≡ 0
HasName buf at (c ∷ name) = (buf at ≡ c) × (c ≢ 0) × HasName buf (at + 1) name

abbrev pub HasEntry : Buffer → (at : ℕ) → Entry → Type 0
HasEntry buf at e =
    HasName buf (at + 8) e.name × (entry_inode buf at ≡ e.inode) × (rec_len buf at ≡ e.len)

-- From offset `at` to the end of the block there are these entries, one at least.
abbrev pub HasEntries : Buffer → (block_size at : ℕ) → Entry → List Entry → Type 0
HasEntries buf block_size at e [] =
    HasEntry buf at e × (block_size ≤ at + e.len) × (at + e.len < 2 ^ 32)
HasEntries buf block_size at e (f ∷ es) =
    HasEntry buf at e × (at + e.len < block_size) × HasEntries buf block_size (at + e.len) f es

-- The bytes of a name are not null.
abbrev pub IsName : List ℕ → Type 0
IsName [] = Unit
IsName (c ∷ name) = (c ≢ 0) × IsName name

name_is-same_text :
    (buf : Buffer) (at : ℕ) (a b : List ℕ)
    → HasName buf at a
    → IsName b
    → name_is buf at b ≡ same_text a b
unfolding name_is same_text
name_is-same_text buf at [] [] h n = ground arith
name_is-same_text buf at [] (y ∷ b) h (ny, n) = ground arith
name_is-same_text buf at (x ∷ a) [] (e, nx, h) n = ground arith
name_is-same_text buf at (x ∷ a) (y ∷ b) (e, nx, h) (ny, n) =
    rw (e, name_is-same_text buf (at + 1) a b h n) refl

abbrev pub inode_of : Buffer → Option ℕ → Option ℕ
inode_of buf none = none
inode_of buf (some at) = some (entry_inode buf at)

-- A search in a block, which changes nothing.
abbrev Searched : Buffer → (name : List ℕ) (es : List Entry) → Ext2 → Run Ext2 (Option ℕ) → Type 0
Searched buf name es s r = (o : Option ℕ) × (r ≡ ok o s) × (inode_of buf o ≡ lookup name es)

pub find_in_block-Searched :
    (fuel block_size : ℕ) (buf : Buffer) (at : ℕ) (name : List ℕ) (e : Entry) (es : List Entry)
    (s : Ext2)
    → block_size < 2 ^ 32
    → length es < fuel
    → IsName name
    → HasEntries buf block_size at e es
    → Searched buf name (e ∷ es) s (find_in_block fuel block_size buf at name s)
unfolding find_in_block lookup
find_in_block-Searched zero block_size buf at name e es s small h is has = absurd (omega arith)
find_in_block-Searched (suc fuel) block_size buf at name e [] s small h is
      ((named, ino, len), end, lt) =
    let test = name_is-same_text buf (at + 8) e.name name named is in
    elim (Bool-cases (same_text e.name name)) [
      | inl same ↦ rw (find_in_block, test, same) (some at, refl, ap some ino)
      | inr other ↦
          let over : leb block_size (add32 at e.len) ≡ true = ground arith in
          rw (find_in_block, test, other, len, over) (none, refl, refl)
    ]
find_in_block-Searched (suc fuel) block_size buf at name e (f ∷ es) s small h is
      ((named, ino, len), more, has) =
    let test = name_is-same_text buf (at + 8) e.name name named is in
    let (o, run, found) =
      find_in_block-Searched fuel block_size buf (at + e.len) name f es s small (omega arith) is
        has in
    elim (Bool-cases (same_text e.name name)) [
      | inl same ↦ rw (find_in_block, test, same) (some at, refl, ap some ino)
      | inr other ↦
          let on : leb block_size (add32 at e.len) ≡ false = ground arith in
          rw (find_in_block, test, other, len, on) (o, run, found)
    ]

-- The directory's entries, block by block.
abbrev pub Listing : Type 0
Listing = ℕ → Entry × List Entry

unfoldable pub lookup_blocks : (name : List ℕ) → Listing → (n block : ℕ) → Option ℕ
lookup_blocks name entries zero block = none
lookup_blocks name entries (suc n) block =
    let rest = lookup_blocks name entries n (block + 1) in
    elim (lookup name ((entries block).0 ∷ (entries block).1)) [ some ino ↦ some ino | none ↦ rest ]

module _ (s : Ext2) (inode : Buffer) (address : ℕ → ℕ) (last : ℕ)
    (mapped : IsMapped s inode address 0 0 last) (entries : Listing) where
  -- Whatever buffer holds a block of the directory has its entries, fewer than the fuel.
  pub record IsListing (fuel : ℕ) : Type 0 where
    pub has :
        (k : ℕ) (buf : Buffer)
        → k ≤ last
        → Holds s (address k) buf
        → HasEntries buf s.block_size 0 (entries k).0 (entries k).1
    pub short : (k : ℕ) → k ≤ last → length (entries k).1 < fuel

  module _ (fuel : ℕ) (listing : IsListing fuel) (name : List ℕ) (is : IsName name) where
    -- The loop ends, with the first entry of the name in the blocks from `block` on, and changes
    -- nothing but `g_tmpBuf`.
    abbrev pub Found : (g : Buffer) (n block : ℕ) (tmp : Buffer) → Type 0
    Found g n block tmp =
        (g' : Buffer) × (find_in_blocks fuel inode n block tmp name (record s { tmp_buf = g })
          ≡ ok (lookup_blocks name entries n block) (record s { tmp_buf = g' }))

    -- The loops of `ext2_finddir` over the blocks of a directory whose blocks the disk reads and
    -- hold entries, fewer in each than the fuel: they return, and give the inode number of the first
    -- entry with the name, or none when there is no such entry.
    pub find_in_blocks-Found :
        (g : Buffer) (n block : ℕ) (tmp : Buffer)
        → block + n ≤ last + 1
        → s.block_size < 2 ^ 32
        → Found g n block tmp
    unfolding find_in_blocks lookup_blocks
    find_in_blocks-Found g zero block tmp inside small = (g, refl)
    find_in_blocks-Found g (suc n) block tmp inside small =
        let (buf, g', read, holds) =
          block_read s inode address 0 0 last mapped g tmp block (omega arith) (omega arith) in
        let (o, run, found) =
          find_in_block-Searched fuel s.block_size buf 0 name (entries block).0 (entries block).1
            (record s { tmp_buf = g' }) small (listing.short block (omega arith)) is
            (listing.has block buf (omega arith) holds) in
        let (g'', rest) = find_in_blocks-Found g' n (block + 1) buf (omega arith) small in
        elim (Option-cases o) [
          | inl e ↦
              let missing : lookup name ((entries block).0 ∷ (entries block).1) ≡ none =
                sym found ∙ ap (inode_of buf) e in
              let l : lookup_blocks name entries (suc n) block
                  ≡ lookup_blocks name entries n (block + 1) =
                rw (lookup_blocks, missing) refl in
              (g'', rw (l, find_in_blocks, read, run, e) rest)
          | inr (at, e) ↦
              let there : lookup name ((entries block).0 ∷ (entries block).1)
                  ≡ some (entry_inode buf at) =
                sym found ∙ ap (inode_of buf) e in
              let l : lookup_blocks name entries (suc n) block ≡ some (entry_inode buf at) =
                rw (lookup_blocks, there) refl in
              (g', rw (l, find_in_blocks, read, run, e) refl)
        ]

    -- `ext2_finddir` in a directory whose inode can be read, with memory for the inode and the buffer,
    -- whose blocks the disk reads and hold entries, fewer in each than the fuel: it makes a node for
    -- the inode of the first entry with the name by `ino2vfs`, or returns none when there is no such
    -- entry, and changes nothing but `g_tmpBuf` before.
    pub ext2_finddir-lookup_blocks :
        (granted : ℕ → Bool) (tmp t : Buffer) (flags ino : ℕ)
        → read_inode (granted 0) ino s ≡ ok (some inode) (record s { tmp_buf = t })
        → inode_dir inode ≡ true
        → granted 1 ≡ true
        → i_size inode / s.block_size ≡ last + 1
        → s.block_size < 2 ^ 32
        → (g : Buffer) × (ext2_finddir fuel granted tmp flags ino name s
            ≡ elim (lookup_blocks name entries (last + 1) 0) [
              | none ↦ ok none (record s { tmp_buf = g })
              | some child ↦
                  ino2vfs (granted 2) (granted 3) flags child name (record s { tmp_buf = g })
            ])
    unfolding ext2_finddir
    ext2_finddir-lookup_blocks granted tmp t flags ino read dir buffer blocks small =
        let (g, run) = find_in_blocks-Found t (last + 1) 0 tmp (omega arith) small in
        elim (Option-cases (lookup_blocks name entries (last + 1) 0)) [
          | inl e ↦ (g, rw (read, dir, buffer, blocks, run, e) refl)
          | inr (child, e) ↦ (g, rw (read, dir, buffer, blocks, run, e) refl)
        ]
