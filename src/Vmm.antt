-- ===== src/Vmm.antt =====
-- The virtual memory manager: kernel/src/mem/vmm.c, with the page-table entries of
-- kernel/include/mem/vmm.h. It takes its frames from the physical memory manager.
pub mod Entry
pub mod Paged
pub mod Create
pub mod Grow
pub mod Walk
pub mod Descend
pub mod Map
pub mod Unmap
pub mod Fault
pub mod Boot
pub mod Identity
mod Tests
use omega_os.Base.{
  ℕ, zero, suc, ◌+◌, ◌-◌, ◌*◌, ◌/◌, ◌%◌, ◌^◌, Bool, true, false, not, Option, none, some, ◌==◌,
  if◌then◌else◌, u64, add64, mul64,
}
use omega_os.Base.Run.{
  Run, ok, panicked, fault, deadlock, out_of_fuel, Cmd, pure, ◌>>=◌, ◌>>◌, gets, modify, assert,
}
use omega_os.Pmm.{Pmm, page_size, rnd_down, pmm_get_frame, pmm_get_frames, pmm_release_frame}

-- `PA_PRESENT`, `PA_READ_WRITE` and `PA_SUPERVISOR`.
abbrev pub user_attributes : ℕ
user_attributes = 7

abbrev pub entries_per_page_table : ℕ
entries_per_page_table = 512

-- The physical memory that holds page tables, by address of the table and index of the entry: the
-- `raw` value there. Physical memory is identity mapped, so that a table's pointer is its address.
pub record Vmm : Type 0 where
  pub pmm : Pmm
  pub tables : ℕ → ℕ → ℕ
  pub lock : Bool

-- The bit field `address` of an entry, and `present`.
unfoldable pub address : ℕ → ℕ
address raw = raw / 2 ^ 12 % 2 ^ 40

unfoldable pub present : ℕ → Bool
present raw = raw % 2 == 1

-- `ADDRESS_MASK` keeps bits 12 to 51 and `ATTRIBUTES_MASK` the others, so that the `|` of the two
-- is their sum. The bit field is then overwritten.
unfoldable pub set_attributes : (raw attr : ℕ) → ℕ
set_attributes raw attr = raw / 2 ^ 12 % 2 ^ 40 * 2 ^ 12 + (attr % 2 ^ 12 + attr / 2 ^ 52 * 2 ^ 52)

unfoldable pub set_address : (raw addr : ℕ) → ℕ
set_address raw addr = raw % 2 ^ 12 + addr % 2 ^ 40 * 2 ^ 12 + raw / 2 ^ 52 * 2 ^ 52

unfoldable pub set_entry : (raw addr attr : ℕ) → ℕ
set_entry raw addr attr = set_address (set_attributes raw attr) (addr % 2 ^ 40)

abbrev pub write_entry : (ℕ → ℕ → ℕ) → (t i raw : ℕ) → ℕ → ℕ → ℕ
write_entry tables t i raw u j = if u == t then (if j == i then raw else tables u j) else tables u j

abbrev pub clear_table : (ℕ → ℕ → ℕ) → (t : ℕ) → ℕ → ℕ → ℕ
clear_table tables t u j = if u == t then 0 else tables u j

pub lock_acquire : Cmd Vmm (Unit {0})
lock_acquire s = if s.lock then deadlock else ok tt (record s { lock = true })

pub lock_release : Cmd Vmm (Unit {0})
lock_release s = ok tt (record s { lock = false })

-- A call of the physical memory manager.
pub on_pmm : {A : Type 0} → Cmd Pmm A → Cmd Vmm A
on_pmm m s = elim (m s.pmm) [
  | ok a p ↦ ok a (record s { pmm = p })
  | panicked ↦ panicked
  | fault ↦ fault
  | deadlock ↦ deadlock
  | out_of_fuel ↦ out_of_fuel
]

pub create_entry : (pt index attr : ℕ) → Cmd Vmm ℕ
unfolding pmm_get_frame
create_entry pt index attr = do
  new_pt ← on_pmm pmm_get_frame
  assert (not (new_pt == 0))
  modify (λ s. record s { tables = clear_table s.tables new_pt })
  modify (λ s. record s {
    tables = write_entry s.tables pt index (set_entry (s.tables pt index) (new_pt / 2 ^ 12) attr);
  })
  pure new_pt

-- `(virt >> (12 + 9 * n)) & 0x1FF`: 39 is the shift at the top, 12 that at the page table.
unfoldable pub index : (n virt : ℕ) → ℕ
index n virt = virt / 2 ^ (12 + 9 * n) % 512

-- The table that an entry points to.
abbrev pub target : ℕ → ℕ
target raw = address raw * 2 ^ 12

-- One of the three steps of `vmm_mapPage` down to the next table, which is created if it is missing.
pub next_table : (pt index attr : ℕ) → Cmd Vmm ℕ
unfolding create_entry
next_table pt i attr s = elim (present (s.tables pt i)) [
  | true ↦ ok (target (s.tables pt i)) s
  | false ↦ create_entry pt i attr s
]

-- The steps of `vmm_mapPage` over `n` levels; the code writes the three out.
pub descend : (n pt virt attr : ℕ) → Cmd Vmm ℕ
unfolding next_table
descend zero pt virt attr = pure pt
descend (suc n) pt virt attr = do
  next ← next_table pt (index (suc n) virt) attr
  descend n next virt attr

pub vmm_map_page : (pml4 phys virt attr : ℕ) → Cmd Vmm (Unit {0})
unfolding lock_acquire lock_release descend
vmm_map_page pml4 phys virt attr = do
  lock_acquire
  let uvirt : ℕ = rnd_down virt page_size in
      do
        pt ← descend 3 pml4 uvirt attr
        modify (λ s. record s {
          tables =
              write_entry s.tables pt (index 0 uvirt)
                (set_entry (s.tables pt (index 0 uvirt)) (phys / 2 ^ 12) attr);
        })
        lock_release

unfoldable pub vmm_identity_map_page : (pml4 phys attr : ℕ) → Cmd Vmm (Unit {0})
vmm_identity_map_page pml4 phys attr = vmm_map_page pml4 phys phys attr

-- The walk over `n` levels that `virt2phys` and `vmm_unmapPage` share: the table it ends at, unless
-- an entry is not present.
pub walk : Vmm → (n pt virt : ℕ) → Option ℕ
walk s zero pt virt = some pt
walk s (suc n) pt virt = elim (present (s.tables pt (index (suc n) virt))) [
  | true ↦ walk s n (target (s.tables pt (index (suc n) virt))) virt
  | false ↦ none
]

-- The last step of `virt2phys`, at the page table.
pub page_at : Vmm → (virt : ℕ) → Option ℕ → ℕ
page_at s virt none = 0
page_at s virt (some pt) =
    if present (s.tables pt (index 0 virt)) then target (s.tables pt (index 0 virt)) else 0

pub virt2phys : (pml4 virt : ℕ) → Vmm → ℕ
unfolding walk page_at
virt2phys pml4 virt s = page_at s virt (walk s 3 pml4 virt)

-- The last step of `vmm_unmapPage`.
pub unmap_at : (pt i : ℕ) → Cmd Vmm ℕ
unmap_at pt i s =
    if present (s.tables pt i)
    then (do
      modify (λ s. record s { tables = write_entry s.tables pt i (s.tables pt i - 1) })
      on_pmm (pmm_release_frame (target (s.tables pt i)))
      pure (target (s.tables pt i)))
        s
    else ok 0 s

pub vmm_unmap_page : (pml4 virt : ℕ) → Cmd Vmm ℕ
unfolding walk unmap_at on_pmm
vmm_unmap_page pml4 virt s = elim (walk s 3 pml4 virt) [
  | none ↦ ok 0 s
  | some pt ↦ unmap_at pt (index 0 virt) s
]

-- The loop of `vmm_unmapPages` with `n` rounds left.
pub unmap_rest : (pml4 virt n i : ℕ) → Cmd Vmm (Unit {0})
unfolding vmm_unmap_page
unmap_rest pml4 virt zero i = pure tt
unmap_rest pml4 virt (suc n) i = do
  vmm_unmap_page pml4 (add64 virt (mul64 i page_size))
  unmap_rest pml4 virt n (i + 1)

pub vmm_unmap_pages : (pml4 virt pages : ℕ) → Cmd Vmm ℕ
unfolding vmm_unmap_page unmap_rest
vmm_unmap_pages pml4 virt pages = do
  p1 ← vmm_unmap_page pml4 virt
  if p1 == 0 then pure p1 else (do unmap_rest pml4 virt (pages - 1) 1; pure p1)

-- Here and below the flush of the translation buffer is left out.
pub vmm_create_page : (pml4 virt attr : ℕ) → Cmd Vmm ℕ
unfolding pmm_get_frame vmm_map_page
vmm_create_page pml4 virt attr = do
  frame ← on_pmm pmm_get_frame
  if frame == 0 then pure 0 else (do vmm_map_page pml4 frame virt attr; pure frame)

-- The loop of `vmm_createPages` with `n` rounds left, and `addr` from the round before.
pub create_rest : (pml4 virt attr n i addr : ℕ) → Cmd Vmm ℕ
unfolding vmm_create_page
create_rest pml4 virt attr zero i addr s = pure addr s
create_rest pml4 virt attr (suc n) i addr s =
    (do
      next ← vmm_create_page pml4 (add64 virt (mul64 i page_size)) attr
      elim (next == 0) [ true ↦ pure 0 | false ↦ create_rest pml4 virt attr n (i + 1) next ])
      s

pub vmm_create_pages : (pml4 virt pages attr : ℕ) → Cmd Vmm ℕ
unfolding create_rest
vmm_create_pages pml4 virt pages attr = create_rest pml4 virt attr pages 0 0

pub vmm_create_identity_page : (pml4 attr : ℕ) → Cmd Vmm ℕ
unfolding pmm_get_frame vmm_identity_map_page
vmm_create_identity_page pml4 attr = do
  frame ← on_pmm pmm_get_frame
  if frame == 0 then pure 0 else (do vmm_identity_map_page pml4 frame attr; pure frame)

-- The loop of `vmm_createIdentityPages` with `n` rounds left.
pub identity_rest : (pml4 frame attr n i : ℕ) → Cmd Vmm (Unit {0})
unfolding vmm_identity_map_page
identity_rest pml4 frame attr zero i = pure tt
identity_rest pml4 frame attr (suc n) i = do
  vmm_identity_map_page pml4 (add64 frame (mul64 i page_size)) attr
  identity_rest pml4 frame attr n (i + 1)

pub vmm_create_identity_pages : (pml4 pages attr : ℕ) → Cmd Vmm ℕ
unfolding identity_rest
vmm_create_identity_pages pml4 pages attr = do
  frame ← on_pmm (pmm_get_frames pages)
  if frame == 0 then pure 0 else (do identity_rest pml4 frame attr pages 0; pure frame)

pub vmm_create_address_space : (parent : ℕ) → Cmd Vmm ℕ
unfolding vmm_create_identity_page
vmm_create_address_space parent = do
  pml4 ← vmm_create_identity_page parent user_attributes
  if pml4 == 0 then pure 0 else (do
    modify (λ s. record s { tables = λ u j. if u == pml4 then s.tables parent j else s.tables u j })
    pure pml4)

-- It returns before its loops.
unfoldable pub vmm_destroy_address_space : (parent pml4 : ℕ) → Cmd Vmm (Unit {0})
vmm_destroy_address_space parent pml4 = pure tt
