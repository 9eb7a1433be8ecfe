-- ===== src/Vmm/Paged.antt =====
-- What the tables of kernel/src/mem/vmm.c look like: each has its level, its entries point one level
-- down, and its frame is in use.
use omega_os.Base.{ℕ, suc, ◌*◌, ◌^◌, ◌≤◌, ◌<◌, ◌≡◌, ◌≢◌, true, false}
use omega_os.Pmm.{page_size}
use omega_os.Pmm.Bits.{used}
use omega_os.Vmm.{Vmm, present, target, walk, page_at}

-- The level of a table is 4 at the top and 1 for a page table; 0 stands for no table. Below the top
-- no two entries point to the same table; two tables at the top may, at the same index.
pub record IsPaged (s : Vmm) (level : ℕ → ℕ) : Type 0 where
  pub pmm_lock : s.pmm.lock ≡ false
  pub small : s.pmm.bitmap_size ≤ 2 ^ 34
  pub frames : (t : ℕ) → level t ≢ 0 → (k : ℕ) × (t ≡ k * page_size) × (used s.pmm k ≡ true)
  pub entries :
      (t l i : ℕ)
      → level t ≡ suc (suc l)
      → i < 512
      → present (s.tables t i) ≡ true
      → level (target (s.tables t i)) ≡ suc l
  pub single :
      (t u l i j : ℕ)
      → level t ≡ suc (suc l)
      → level u ≡ suc (suc l)
      → i < 512
      → j < 512
      → present (s.tables t i) ≡ true
      → present (s.tables u j) ≡ true
      → target (s.tables t i) ≡ target (s.tables u j)
      → (i ≡ j) × (suc (suc l) ≢ 4 → t ≡ u)

-- What an address is translated to from a table with `n` levels below it.
abbrev pub translation : Vmm → (n t virt : ℕ) → ℕ
translation s n t virt = page_at s virt (walk s n t virt)
