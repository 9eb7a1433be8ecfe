-- ===== src/Ext2/Blocks/Address.antt =====
-- What `getRealBlock` of kernel/src/fs/ext2.c finds, against the layout of an inode.
use omega_os.Base.{
  ℕ, ◌+◌, ◌-◌, ◌*◌, ◌/◌, ◌%◌, ◌^◌, ◌≤◌, ◌<◌, ◌≡◌, refl, ◌∙◌, true, false, ltb, if◌then◌else◌, ap,
  arith, inl, inr, Bool-cases,
}
use omega_os.Base.Run.{ok}
use omega_os.Ide.{Buffer, lba, ide_read}
use omega_os.Ide.Sectors.{sector_byte, read_sectors-AllRead}
use omega_os.Ext2.{
  Ext2, mul32, sub32, word_at, i_block, sectors_per_block, ptrs_per_block, read_block, load_block,
  tmp_word,
}
use omega_os.Ext2.Blocks.{get_real_block}

-- Byte `b` of a block of the disk.
unfoldable pub block_byte : Ext2 → (block b : ℕ) → ℕ
block_byte s block b = sector_byte s.disk (mul32 block (sectors_per_block s)) b

-- Every sector of the block can be read.
abbrev pub Readable : Ext2 → (block : ℕ) → Type 0
Readable s block =
    (k : ℕ)
    → k < sectors_per_block s
    → s.disk.readable (lba (mul32 block (sectors_per_block s) + k)) ≡ true

-- A block is made of whole sectors.
abbrev pub IsSized : Ext2 → Type 0
IsSized s = (s.block_size % 512 ≡ 0) × (512 ≤ s.block_size) × (s.block_size < 2 ^ 24)

-- `buf` holds the block.
abbrev pub Holds : Ext2 → (block : ℕ) → Buffer → Type 0
Holds s block buf = (b : ℕ) → b < s.block_size → buf b ≡ block_byte s block b

pub read_block-Holds :
    (block : ℕ) (buf : Buffer) (s : Ext2)
    → IsSized s
    → Readable s block
    → ((read_block block buf s).0 ≡ true) × Holds s block (read_block block buf s).1
unfolding read_block ide_read block_byte sectors_per_block
read_block-Holds block buf s sized good =
    let (fine, bytes, before) =
      read_sectors-AllRead (mul32 block (sectors_per_block s)) (sectors_per_block s) 0 s.disk buf
        good in
    (
      fine,
      λ b h.
          bytes b (omega arith) (omega arith)
          ∙ ap (sector_byte s.disk (mul32 block (sectors_per_block s))) (omega arith),
    )

pub load_block-Holds :
    (block : ℕ) (s : Ext2)
    → IsSized s
    → Readable s block
    → (buf : Buffer) × (load_block block s ≡ ok true (record s { tmp_buf = buf }))
      × Holds s block buf
unfolding load_block
load_block-Holds block s sized good =
    let (fine, holds) = read_block-Holds block s.tmp_buf s sized good in
    (
      (read_block block s.tmp_buf s).1,
      ap (λ b. ok b (record s { tmp_buf = (read_block block s.tmp_buf s).1 })) fine,
      holds,
    )

-- Pointer `k` of a block of pointers.
unfoldable pub pointer : Ext2 → (block k : ℕ) → ℕ
pointer s block k = word_at (block_byte s block) (4 * k)

Holds-pointer :
    (s : Ext2) (block k : ℕ) (buf : Buffer)
    → IsSized s
    → Holds s block buf
    → k < ptrs_per_block s
    → word_at buf (4 * k) ≡ pointer s block k
unfolding pointer word_at ptrs_per_block
Holds-pointer s block k buf sized holds h = omega (
  arith,
  holds (4 * k) (omega arith),
  holds (4 * k + 1) (omega arith),
  holds (4 * k + 2) (omega arith),
  holds (4 * k + 3) (omega arith),
)

-- The layout of an inode: twelve blocks, then the blocks behind one, two and three levels of
-- pointers.
unfoldable pub layout : Ext2 → (inode : Buffer) (block : ℕ) → ℕ
layout s inode block =
    let p = ptrs_per_block s in
    let single = block - 12 in
    let double = single - p in
    let triple = double - p * p in
    if ltb block 12
    then i_block inode block
    else if ltb single p
    then pointer s (i_block inode 12) single
    else if ltb double (p * p)
    then pointer s (pointer s (i_block inode 13) (double / p)) (double % p)
    else pointer s
        (pointer s (pointer s (i_block inode 14) (triple / (p * p))) (triple % (p * p) / p))
        (triple % p)

-- `getRealBlock` gives `real`, and changes only `g_tmpBuf`.
abbrev pub Resolves : Ext2 → (inode : Buffer) (block real : ℕ) → Type 0
Resolves s inode block real =
    (buf : Buffer) × (get_real_block inode block s ≡ ok real (record s { tmp_buf = buf }))

pub get_real_block_direct :
    (s : Ext2) (inode : Buffer) (block : ℕ)
    → block < 12
    → get_real_block inode block s ≡ ok (i_block inode block) s
unfolding get_real_block
get_real_block_direct s inode block h =
    let e : ltb block 12 ≡ true = ground arith in rw (get_real_block, e) refl

direct-Resolves :
    (s : Ext2) (inode : Buffer) (block : ℕ)
    → block < 12
    → Resolves s inode block (layout s inode block)
unfolding get_real_block layout
direct-Resolves s inode block h =
    let e : ltb block 12 ≡ true = ground arith in (s.tmp_buf, rw (get_real_block, e) refl)

single_found :
    (s : Ext2) (inode : Buffer) (block : ℕ) (buf : Buffer)
    → IsSized s
    → 12 ≤ block
    → block < 12 + ptrs_per_block s
    → load_block (i_block inode 12) s ≡ ok true (record s { tmp_buf = buf })
    → word_at buf (4 * (block - 12)) ≡ pointer s (i_block inode 12) (block - 12)
    → get_real_block inode block s ≡ ok (layout s inode block) (record s { tmp_buf = buf })
unfolding get_real_block layout tmp_word ptrs_per_block
single_found s inode block buf sized lo range loaded at =
    let e : ltb block 12 ≡ false = ground arith in
    let e1 : ltb block (12 + ptrs_per_block s) ≡ true = ground arith in
    let e2 : ltb (block - 12) (ptrs_per_block s) ≡ true = ground arith in
    let e3 : sub32 block 12 ≡ block - 12 = omega arith in
    rw (e, e1, loaded, e2, e3) (rw (e2, at) refl)

-- `getRealBlock` of a block that an inode holds itself or behind its one single indirect block: it
-- returns the number that the layout gives and changes nothing but `g_tmpBuf`, when the sectors of
-- the single indirect block can be read.
pub get_real_block-layout :
    (s : Ext2) (inode : Buffer) (block : ℕ)
    → IsSized s
    → block < 12 + ptrs_per_block s
    → (12 ≤ block → Readable s (i_block inode 12))
    → Resolves s inode block (layout s inode block)
unfolding get_real_block layout
get_real_block-layout s inode block sized range good = elim (Bool-cases (ltb block 12)) [
  | inl e ↦ direct-Resolves s inode block (ground arith)
  | inr e ↦
      let (buf, loaded, holds) =
        load_block-Holds (i_block inode 12) s sized (good (ground arith)) in
      let at : word_at buf (4 * (block - 12)) ≡ pointer s (i_block inode 12) (block - 12) =
        Holds-pointer s (i_block inode 12) (block - 12) buf sized holds (ground arith) in
      (buf, single_found s inode block buf sized (ground arith) range loaded at)
]
