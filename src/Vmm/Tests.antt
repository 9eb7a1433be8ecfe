-- ===== src/Vmm/Tests.antt =====
-- The theorems about kernel/src/mem/vmm.c on tables that map one page.
use omega_os.Base.{
  ℕ, zero, suc, ◌+◌, ◌-◌, ◌*◌, ◌/◌, ◌%◌, ◌≤◌, ◌≡◌, ◌≢◌, ◌⊎◌, refl, true, false, ◌&&◌, ◌||◌, none,
  arith, ◌==◌, if◌then◌else◌, [], ltb, leb, sym, ◌∙◌,
}
use omega_os.Base.Run.{ok, panicked}
use omega_os.Pmm.{Pmm, page_size, rnd_down}
use omega_os.Pmm.Bits.{used}
use omega_os.Vmm.{
  Vmm, present, address, target, index, walk, virt2phys, vmm_map_page, vmm_unmap_page,
}
use omega_os.Vmm.Paged.{IsPaged}
use omega_os.Vmm.Descend.{OutOfFrames}
use omega_os.Vmm.Map.{Mapped, vmm_map_page-Mapped}
use omega_os.Vmm.Boot.{map_range}
use omega_os.Vmm.Identity.{RangeOutcome, map_range-IdentityMapped}
use omega_os.Vmm.Fault.{page_fault_handler, Missed, page_fault_handler-Missed}
use omega_os.Vmm.Unmap.{UnmapOutcome, vmm_unmap_page-Unmapped}

-- 256 frames: frame 2 holds a page, frames 16 to 19 hold a table of each level.
abbrev pmm : Pmm
pmm = record {
  mmap = [];
  memory_size = 0;
  bitmap = λ i j. i == 0 && (j == 0 || j == 2 || (leb 16 j && ltb j 20));
  bitmap_base = 0;
  bitmap_size = 4;
  last_found = 0;
  lock = false;
}

abbrev level : ℕ → ℕ
level t =
    if t == 0x10000
    then 4
    else if t == 0x11000
    then 3
    else if t == 0x12000
    then 2
    else if t == 0x13000
    then 1
    else 0

-- The first page is mapped to frame 2.
abbrev tables : ℕ → ℕ → ℕ
tables t i =
    if i == 0
    then (if t == 0x10000
        then 0x11007
        else if t == 0x11000
        then 0x12007
        else if t == 0x12000
        then 0x13007
        else if t == 0x13000
        then 0x2007
        else 0)
    else 0

abbrev vmm : Vmm
vmm = record { pmm = pmm; tables = tables; lock = false }

level-address : (t n : ℕ) → level t ≡ suc n → (t + 0x1000 * n ≡ 0x13000) × (n ≤ 3)
level-address t n e = (ground arith, ground arith)

index_zero : (t i : ℕ) → present (tables t i) ≡ true → i ≡ 0
unfolding present
index_zero t i on = ground arith

target-level : (t l : ℕ) → level t ≡ suc (suc l) → target (tables t 0) + 0x1000 * l ≡ 0x13000
unfolding address
target-level t l e = let (at, few) = level-address t (suc l) e in ground arith

level-of : (l : ℕ) (t : ℕ) → t + 0x1000 * l ≡ 0x13000 → l ≤ 3 → level t ≡ suc l
level-of zero t e h = ground arith
level-of (suc zero) t e h = ground arith
level-of (suc (suc zero)) t e h = ground arith
level-of (suc (suc (suc zero))) t e h = ground arith
level-of (suc (suc (suc (suc l)))) t e h = absurd (omega (arith, h))

vmm-entries :
    (t l i : ℕ)
    → level t ≡ suc (suc l)
    → present (tables t i) ≡ true
    → level (target (tables t i)) ≡ suc l
vmm-entries t l i lt on = rw (index_zero t i on) (
    level-of l (target (tables t 0)) (target-level t l lt)
      (omega (arith, (level-address t (suc l) lt).1)))

vmm-frames : (t : ℕ) → level t ≢ 0 → (k : ℕ) × (t ≡ k * page_size) × (used pmm k ≡ true)
vmm-frames t table = of_level (level t) refl
  where
    of_level : (n : ℕ) → level t ≡ n → (k : ℕ) × (t ≡ k * page_size) × (used pmm k ≡ true)
    of_level zero e = absurd (table e)
    of_level (suc n) e =
        let (at, few) = level-address t n e in
        let word : (19 - n) / 64 ≡ 0 = omega (arith, few) in
        let bit : (19 - n) % 64 ≡ 19 - n = omega (arith, few) in
        (19 - n, omega (arith, at, few), rw (word, bit) (ground (arith, few)))

vmm-IsPaged : IsPaged vmm level
vmm-IsPaged = record {
  pmm_lock = refl;
  small = omega arith;
  frames = vmm-frames;
  entries = λ t l i lt b on. vmm-entries t l i lt on;
  single = λ t u l i j lt lu bi bj oni onj same. (
    index_zero t i oni ∙ sym (index_zero u j onj),
    λ _. omega (arith, (level-address t (suc l) lt).0, (level-address u (suc l) lu).0),
  );
}

present_user : present 7 ≡ true
unfolding present
present_user = ground arith

-- `virt2phys` forgets the offset in the page.
virt2phys_offset : virt2phys 0x10000 0x123 vmm ≡ 0x2000
unfolding virt2phys present address index
virt2phys_offset = refl

-- The next page, at 0x1000, is mapped to frame 5.
vmm_map_page-Mapped_example :
    (vmm_map_page 0x10000 0x5000 0x1000 7 vmm ≡ panicked)
      × OutOfFrames (record vmm { lock = true }) level
      × (walk vmm 3 0x10000 (rnd_down 0x1000 page_size) ≡ none)
    ⊎ (s' : Vmm) × (vmm_map_page 0x10000 0x5000 0x1000 7 vmm ≡ ok tt s')
      × Mapped vmm level 0x10000 0x5000 (rnd_down 0x1000 page_size) s'
vmm_map_page-Mapped_example =
    vmm_map_page-Mapped vmm level 0x10000 0x5000 0x1000 7 vmm-IsPaged refl refl present_user

vmm_unmap_page-Unmapped_example :
    (vmm_unmap_page 0x10000 0x123 vmm ≡ ok 0 vmm) × (virt2phys 0x10000 0x123 vmm ≡ 0)
    ⊎ (frame : ℕ) × (virt2phys 0x10000 0x123 vmm ≡ frame * page_size)
      × UnmapOutcome vmm 0x10000 0x123 frame (vmm_unmap_page 0x10000 0x123 vmm)
vmm_unmap_page-Unmapped_example = vmm_unmap_page-Unmapped vmm level 0x10000 0x123 vmm-IsPaged refl

-- A write at 0x1234, which is not mapped.
page_fault_handler-Missed_example :
    Missed vmm level 0x10000 0x1234 (page_fault_handler true 6 0x1234 0x10000 vmm)
page_fault_handler-Missed_example =
    page_fault_handler-Missed vmm level 6 0x1234 0x10000 vmm-IsPaged refl refl refl refl
      (ground arith) (omega arith)

-- The pages 16 and 17, where the tables themselves are.
map_range-IdentityMapped_example :
    RangeOutcome vmm 0x10000 16 2 (map_range 0x10000 (λ a. 7) 2 (16 * page_size) vmm)
map_range-IdentityMapped_example =
    map_range-IdentityMapped vmm level 0x10000 (λ a. 7) 2 16 vmm-IsPaged refl refl
      (λ a. present_user) (omega arith)
