-- ===== src/Vmm/Boot.antt =====
-- `vmm_init` of kernel/src/mem/vmm.c, without the writes to the PAT register and to CR3.
use omega_os.Base.{ℕ, zero, suc, ◌+◌, ◌-◌, ◌/◌, Bool, ◌&&◌, not, leb, ◌==◌, if◌then◌else◌, add64}
use omega_os.Base.Run.{Cmd, pure, ◌>>=◌, ◌>>◌, modify, assert}
use omega_os.Pmm.{Framebuffer, page_size, rnd_up, rnd_down, pmm_get_frame}
use omega_os.Pmm.Init.{pmm_get_memory_size}
use omega_os.Vmm.{Vmm, on_pmm, clear_table, user_attributes, vmm_identity_map_page}

-- The linker's symbols.
pub record Kernel : Type 0 where
  pub start : ℕ
  pub end : ℕ
  pub writable_start : ℕ
  pub writable_end : ℕ

-- `VMM_KERNEL_ATTRIBUTES`, and `PA_PRESENT | PA_SUPERVISOR`.
abbrev pub kernel_attributes : ℕ
kernel_attributes = 3

abbrev pub read_only_attributes : ℕ
read_only_attributes = 5

-- The rounds of a loop over the pages from `addr` to `end`.
abbrev pub pages : (addr end : ℕ) → ℕ
pages addr end = (end - addr + page_size - 1) / page_size

-- Such a loop with `n` rounds left; `attr` is the attribute of each page.
unfoldable pub map_range : (pml4 : ℕ) → (attr : ℕ → ℕ) → (n addr : ℕ) → Cmd Vmm (Unit {0})
map_range pml4 attr zero addr = pure tt
map_range pml4 attr (suc n) addr = do
  vmm_identity_map_page pml4 addr (attr addr)
  map_range pml4 attr n (add64 addr page_size)

unfoldable pub kernel_page : Kernel → ℕ → ℕ
kernel_page k addr =
    if leb (rnd_down k.writable_start page_size) addr && leb addr (rnd_up k.writable_end page_size)
    then user_attributes
    else read_only_attributes

-- `registered` is the result of `isr_registerHandler`. The kernel's PML4 is returned.
unfoldable pub vmm_init : (registered : Bool) → Kernel → Framebuffer → Cmd Vmm ℕ
vmm_init registered k fb = do
  assert registered
  pml4 ← on_pmm pmm_get_frame
  assert (not (pml4 == 0))
  modify (λ s. record s { tables = clear_table s.tables pml4 })
  size ← on_pmm pmm_get_memory_size
  map_range pml4 (λ addr. kernel_attributes) (pages 0 (rnd_up size page_size)) 0
  map_range pml4 (kernel_page k) (pages (rnd_down k.start page_size) (rnd_up k.end page_size))
      (rnd_down k.start page_size)
  let base = rnd_down fb.base_address page_size in
      do
        map_range pml4 (λ addr. kernel_attributes)
            (pages base (rnd_up (add64 base fb.buffer_size) page_size)) base
        pure pml4
