-- ===== src/Ext2/Directories/Change/Removed.antt =====
-- `deleteInodeFromDir` of kernel/src/fs/ext2.c and the lookup of a name.
use omega_os.Base.{
  ℕ, zero, suc, ◌+◌, ◌/◌, ◌<◌, ◌≡◌, refl, sym, ap, ◌^◌, ◌∙◌, Bool, true, false, ◌||◌, Option, none,
  some, List, [], ◌∷◌, leb, Bool-cases, inl, inr, arith,
}
use omega_os.Base.Run.{ok}
use omega_os.Path.{same_text}
use omega_os.Ide.{Buffer}
use omega_os.Ext2.{Ext2, i_size, add32}
use omega_os.Ext2.Directories.{rec_len, name_is, find_in_block, find_in_blocks, entry_inode}
use omega_os.Ext2.Directories.Lookup.{
  Listing, IsListing, IsName, lookup, lookup_blocks, inode_of, find_in_block-Searched,
  find_in_blocks-Found,
}
use omega_os.Ext2.Files.Reading.{IsMapped, block_read}
use omega_os.Ext2.Directories.Change.{
  enoent, find_entry, leave, delete_round, delete_rounds, delete_inode_from_dir,
}
use omega_os.Ext2.Write.{Grants}

find_entry-none :
    (fuel block_size : ℕ) (buf : Buffer) (at : ℕ) (prev : Option ℕ) (name : List ℕ) (s : Ext2)
    → find_in_block fuel block_size buf at name s ≡ ok none s
    → find_entry fuel block_size buf at prev name s ≡ ok none s
unfolding find_in_block find_entry
find_entry-none zero block_size buf at prev name s h = cc
find_entry-none (suc fuel) block_size buf at prev name s h =
    elim (Bool-cases (name_is buf (at + 8) name)) [
      | inl same ↦
          let e : find_in_block (suc fuel) block_size buf at name s ≡ ok (some at) s =
            rw (find_in_block, same) refl in
          cc
      | inr other ↦ elim (Bool-cases (leb block_size (add32 at (rec_len buf at)))) [
        | inl over ↦ rw (other, over) refl
        | inr on ↦
            let e : find_in_block (suc fuel) block_size buf at name s
                ≡ find_in_block fuel block_size buf (at + rec_len buf at) name s =
              rw (find_in_block, other, on) refl in
            rw (other, on)
              (find_entry-none fuel block_size buf (at + rec_len buf at) (some at) name s
                (sym e ∙ h))
      ]
    ]

module _ (s : Ext2) (inode : Buffer) (address : ℕ → ℕ) (last : ℕ)
    (mapped : IsMapped s inode address 0 0 last) (entries : Listing) (fuel : ℕ)
    (listing : IsListing s inode address last mapped entries fuel) (name : List ℕ)
    (is : IsName name) where
  nothing_there :
      (buf : Buffer) (o : Option ℕ)
      → inode_of buf o ≡ lookup name ((entries 0).0 ∷ (entries 0).1)
      → lookup name ((entries 0).0 ∷ (entries 0).1) ≡ none
      → o ≡ none
  nothing_there buf none found missing = refl
  nothing_there buf (some at) found missing =
      let e : some (entry_inode buf at) ≡ none = found ∙ missing in cc

  first_round :
      (g : Grants) (granted_bitmap : Bool) (tmp : Buffer) (pino : ℕ)
      → s.block_size < 2 ^ 32
      → lookup name ((entries 0).0 ∷ (entries 0).1) ≡ none
      → (t : Buffer) × (delete_round g fuel granted_bitmap tmp inode pino name 0 s
          ≡ ok (leave (enoent, none, inode)) (record s { tmp_buf = t }))
  unfolding delete_round
  first_round g granted_bitmap tmp pino small missing =
      let (buf, t, read, holds) =
        block_read s inode address 0 0 last mapped s.tmp_buf tmp 0 (omega arith) (omega arith) in
      let (o, run, found) =
        find_in_block-Searched fuel s.block_size buf 0 name (entries 0).0 (entries 0).1
          (record s { tmp_buf = t }) small (listing.short 0 (omega arith)) is
          (listing.has 0 buf (omega arith) holds) in
      let passed : find_in_block fuel s.block_size buf 0 name (record s { tmp_buf = t })
          ≡ ok none (record s { tmp_buf = t }) =
        run ∙ ap (λ p. ok p (record s { tmp_buf = t })) (nothing_there buf o found missing) in
      (
        t,
        rw
            (
              delete_round,
              read,
              find_entry-none fuel s.block_size buf 0 none name (record s { tmp_buf = t }) passed,
            )
            refl,
      )

  -- In a directory whose blocks the disk reads and hold entries, fewer in each than the fuel, and for
  -- a name that is neither `.` nor `..`, that no entry of the first block has, and that an entry of a
  -- later block has: the loops of `ext2_finddir` find the entry, and `deleteInodeFromDir` reports that
  -- there is none, for it leaves its loop at the end of the first block. It changes nothing but
  -- `g_tmpBuf`.
  pub delete_inode_from_dir-first_block :
      (g : Grants) (granted_bitmap : Bool) (tmp : Buffer) (pino child : ℕ)
      → (same_text name (46 ∷ []) || same_text name (46 ∷ 46 ∷ [])) ≡ false
      → lookup name ((entries 0).0 ∷ (entries 0).1) ≡ none
      → lookup_blocks name entries last 1 ≡ some child
      → i_size inode / s.block_size ≡ last + 1
      → s.block_size < 2 ^ 32
      → ((t : Buffer) × (find_in_blocks fuel inode (last + 1) 0 tmp name s
            ≡ ok (some child) (record s { tmp_buf = t })))
        × ((t : Buffer) × (delete_inode_from_dir g fuel true granted_bitmap tmp inode pino name s
              ≡ ok (enoent, none, inode) (record s { tmp_buf = t })))
  unfolding delete_inode_from_dir delete_rounds lookup_blocks
  delete_inode_from_dir-first_block g granted_bitmap tmp pino child plain missing later blocks
        small =
      let (t, run) =
        find_in_blocks-Found s inode address last mapped entries fuel listing name is s.tmp_buf
          (last + 1) 0 tmp (omega arith) small in
      let (u, left) = first_round g granted_bitmap tmp pino small missing in
      let rounds : last + 1 ≡ suc last = omega arith in
      let there : lookup_blocks name entries (last + 1) 0 ≡ some child =
        rw (rounds, lookup_blocks, missing) later in
      (
        (t, run ∙ ap (λ o. ok o (record s { tmp_buf = t })) there),
        (u, rw (delete_inode_from_dir, plain, blocks, rounds, delete_rounds, left) refl),
      )
