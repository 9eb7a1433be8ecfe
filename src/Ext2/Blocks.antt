-- ===== src/Ext2/Blocks.antt =====
-- From a block of a file to a block of the disk: `getRealBlock`, `setRealBlock` and
-- `readInodeBlock` of kernel/src/fs/ext2.c.
pub mod Address
pub mod Collide
use omega_os.Base.{
  ℕ, ◌+◌, ◌-◌, ◌*◌, ◌/◌, ◌^◌, ◌%◌, Bool, true, false, not, ltb, if◌then◌else◌, sub64,
}
use omega_os.Base.Run.{Run, ok, Cmd, pure, ◌>>=◌, ◌>>◌, gets, and_then}
use omega_os.Ide.{Buffer}
use omega_os.Ext2.{
  Ext2, i_block, ind_block, dind_block, tind_block, ptrs_per_block, sub32, load_block, tmp_word,
  set_tmp_word, set_word, read_block,
}

-- The numbers of blocks behind the three kinds of indirect block.
abbrev pub single_ptrs : Ext2 → ℕ
single_ptrs s = ptrs_per_block s

abbrev pub double_ptrs : Ext2 → ℕ
double_ptrs s = single_ptrs s * ptrs_per_block s

abbrev pub triple_ptrs : Ext2 → ℕ
triple_ptrs s = double_ptrs s * ptrs_per_block s

-- The indices into the pointer blocks: `b`, `c` and `d` of the double indirect case, and `d`, `f` and
-- `g` of the triple one, where `c` and what follows may wrap around.
unfoldable pub double_b : (p block : ℕ) → ℕ
double_b p block = sub32 block dind_block / p

unfoldable pub double_c : (p block : ℕ) → ℕ
double_c p block = double_b p block / p

unfoldable pub double_d : (p block : ℕ) → ℕ
double_d p block = double_b p block - double_c p block * p

unfoldable pub triple_c : (p block : ℕ) → ℕ
triple_c p block = sub64 (sub64 (sub32 block tind_block) p % 2 ^ 32) (p * p) % 2 ^ 32

unfoldable pub triple_d : (p block : ℕ) → ℕ
triple_d p block = triple_c p block / (p * p)

unfoldable pub triple_e : (p block : ℕ) → ℕ
triple_e p block = triple_c p block - triple_d p block * p * p

unfoldable pub triple_f : (p block : ℕ) → ℕ
triple_f p block = triple_e p block / p

unfoldable pub triple_g : (p block : ℕ) → ℕ
triple_g p block = triple_e p block - triple_f p block * p

-- Reads a block into `g_tmpBuf` and goes on, or ends with `failed`.
abbrev pub load_or : {A : Type 0} → (failed : A) (block : ℕ) → Cmd Ext2 A → Cmd Ext2 A
load_or failed block k = do fine ← load_block block; if not fine then pure failed else k

unfoldable pub get_real_block : (inode : Buffer) (block : ℕ) → Cmd Ext2 ℕ
get_real_block inode block = do
  s ← gets (λ s. s)
  let p = ptrs_per_block s
  if ltb block ind_block
      then pure (i_block inode block)
      else if ltb block (ind_block + single_ptrs s)
      then load_or 0 (i_block inode ind_block) (tmp_word (sub32 block ind_block))
      else if ltb block (ind_block + double_ptrs s + single_ptrs s)
      then load_or 0 (i_block inode dind_block)
          (do single ← tmp_word (double_c p block); load_or 0 single (tmp_word (double_d p block)))
      else if ltb block (ind_block + triple_ptrs s + double_ptrs s + single_ptrs s)
      then load_or 0 (i_block inode tind_block) (do
        double ← tmp_word (triple_d p block)
        load_or 0 double (do
          single ← tmp_word (triple_f p block)
          load_or 0 single (tmp_word (triple_g p block))))
      else pure 0

-- The inode is changed in place, so it is returned. The pointer blocks are changed in `g_tmpBuf`.
unfoldable pub set_real_block : (inode : Buffer) (block real : ℕ) → Cmd Ext2 (Bool × Buffer)
set_real_block inode block real = do
  s ← gets (λ s. s)
  let p = ptrs_per_block s
  if ltb block ind_block
      then pure (true, set_word inode (40 + 4 * block) real)
      else if ltb block (ind_block + single_ptrs s)
      then load_or (false, inode) (i_block inode ind_block)
          (do set_tmp_word (sub32 block ind_block) real; pure (true, inode))
      else if ltb block (ind_block + double_ptrs s + single_ptrs s)
      then load_or (false, inode) (i_block inode dind_block)
          (do
            single ← tmp_word (double_c p block)
            load_or (false, inode) single
                (do set_tmp_word (double_d p block) real; pure (true, inode)))
      else if ltb block (ind_block + triple_ptrs s + double_ptrs s + single_ptrs s)
      then load_or (false, inode) (i_block inode tind_block)
          (do
            double ← tmp_word (triple_d p block)
            load_or (false, inode) double
                (do
                  single ← tmp_word (triple_f p block)
                  load_or (false, inode) single
                      (do set_tmp_word (triple_g p block) real; pure (true, inode))))
      else pure (false, inode)

unfoldable pub read_inode_block : (inode : Buffer) (block : ℕ) → Buffer → Cmd Ext2 (Bool × Buffer)
read_inode_block inode block buf = do real ← get_real_block inode block; gets (read_block real buf)
