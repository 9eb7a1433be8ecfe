-- ===== src/Pmm/Init.antt =====
-- `pmm_getMemorySize` and `pmm_init` of kernel/src/mem/pmm.c.
use omega_os.Base.{
  ℕ, ◌+◌, ◌*◌, ◌/◌, ◌^◌, ◌≤◌, ◌<◌, ◌≡◌, refl, Bool, true, false, ◌&&◌, ◌||◌, not, Option, none,
  some, List, [], ◌∷◌, arith, ltb, ◌==◌, if◌then◌else◌, ◌∙◌, ap, sym, subst, add64, mul64, u64,
  Bool-cases, inl, inr,
}
use omega_os.Base.Run.{ok, Cmd, ◌>>=◌, ◌>>◌, gets, modify, assert}
use omega_os.Pmm.{
  Pmm, MemoryDescriptor, Framebuffer, mmap_free, page_size, element_size, pmm_reserve_region,
  pmm_unreserve_region,
}
use omega_os.Pmm.Bits.{used, in_run}
use omega_os.Pmm.Search.{IsSmall}
use omega_os.Pmm.Region.{
  used-pmm_reserve_region, used-pmm_unreserve_region, reserve_region-rest, unreserve_region-rest,
}

-- The loop over the descriptors, which adds to the static variable.
unfoldable pub sum_pages : ℕ → List MemoryDescriptor → ℕ
sum_pages size [] = size
sum_pages size (d ∷ ds) = sum_pages (add64 size (mul64 d.number_of_pages page_size)) ds

pub pmm_get_memory_size : Cmd Pmm ℕ
unfolding sum_pages
pmm_get_memory_size s =
    if ltb 0 s.memory_size
    then ok s.memory_size s
    else (let size = sum_pages s.memory_size s.mmap in ok size (record s { memory_size = size }))

-- `largestMemSegment` and `largestSegment`.
pub record Largest : Type 0 where
  pub pages : ℕ
  pub segment : Option MemoryDescriptor

unfoldable pub find_largest : Largest → List MemoryDescriptor → Largest
find_largest l [] = l
find_largest l (d ∷ ds) =
    find_largest
      (if d.type == mmap_free && ltb l.pages d.number_of_pages
        then record { pages = d.number_of_pages; segment = some d }
        else l)
      ds

abbrev is_some : Option MemoryDescriptor → Bool
is_some none = false
is_some (some d) = true

-- Only a successful `assert` comes before the use of the pointer.
abbrev base_of : Option MemoryDescriptor → ℕ
base_of none = 0
base_of (some d) = d.physical_start

unreserve_usable : List MemoryDescriptor → Pmm → Pmm
unreserve_usable [] s = s
unreserve_usable (d ∷ ds) s =
    unreserve_usable ds
      (if d.type == mmap_free then pmm_unreserve_region d.physical_start d.number_of_pages s else s)

-- `memset(g_bitmap, 0xFF, …)`.
fill_bitmap : Pmm → Pmm
fill_bitmap s = record s { bitmap = λ i j. if ltb i s.bitmap_size then true else s.bitmap i j }

-- `pmm_init`. The list holds the `mmapSize / mmapDescriptorSize` descriptors, and `kernel_end` is
-- the linker's `_KernelEnd`.
pub pmm_init : List MemoryDescriptor → Framebuffer → (kernel_end : ℕ) → Cmd Pmm (Unit {0})
unfolding pmm_get_memory_size find_largest unreserve_usable fill_bitmap
pmm_init mmap fb kernel_end = do
  modify (λ s. record s { mmap = mmap; last_found = 0 })
  let l = find_largest (record { pages = 0; segment = none }) mmap
  assert (is_some l.segment && not (l.pages == 0))
  size ← pmm_get_memory_size
  modify (λ s. record s {
    bitmap_size = size / page_size / element_size;
    bitmap_base = base_of l.segment;
  })
  bytes ← gets (λ s. mul64 s.bitmap_size 8)
  assert (ltb bytes l.pages)
  modify fill_bitmap
  modify (unreserve_usable mmap)
  base ← gets (λ s. s.bitmap_base)
  modify (pmm_reserve_region base (bytes / page_size))
  modify (pmm_reserve_region fb.base_address (fb.buffer_size / page_size))
  modify (pmm_reserve_region 0 (add64 (kernel_end / page_size) 1))

-- Frame `f` is freed on account of some usable descriptor.
pub usable : List MemoryDescriptor → ℕ → Bool
usable [] f = false
usable (d ∷ ds) f =
    (d.type == mmap_free
      && in_run (if ltb d.physical_start page_size then 1 else d.physical_start / page_size)
          d.number_of_pages f)
    || usable ds f

-- No region of the map reaches the end of the address space.
abbrev pub Fits : List MemoryDescriptor → Type 0
Fits [] = Unit
Fits (d ∷ ds) = (d.physical_start + d.number_of_pages * page_size + page_size ≤ u64) × Fits ds

used-unreserve_usable :
    (ds : List MemoryDescriptor) (s : Pmm) (f : ℕ)
    → Fits ds
    → used (unreserve_usable ds s) f ≡ (if usable ds f then false else used s f)
unfolding unreserve_usable usable
used-unreserve_usable [] s f h = refl
used-unreserve_usable (d ∷ ds) s f h = elim (Bool-cases (d.type == mmap_free)) [
  | inl e ↦ rw e (
      used-unreserve_usable ds (pmm_unreserve_region d.physical_start d.number_of_pages s) f h.1
      ∙ (rw (used-pmm_unreserve_region s d.physical_start d.number_of_pages f h.0) (ground arith)))
  | inr e ↦ rw e (used-unreserve_usable ds s f h.1)
]

unreserve_usable-rest :
    (ds : List MemoryDescriptor) (s : Pmm)
    → ((unreserve_usable ds s).bitmap_base ≡ s.bitmap_base)
      × ((unreserve_usable ds s).bitmap_size ≡ s.bitmap_size)
      × ((unreserve_usable ds s).lock ≡ s.lock)
unfolding unreserve_usable
unreserve_usable-rest [] s = (refl, refl, refl)
unreserve_usable-rest (d ∷ ds) s = ground (
  arith,
  unreserve_region-rest d.physical_start d.number_of_pages s,
  unreserve_usable-rest ds (pmm_unreserve_region d.physical_start d.number_of_pages s),
  unreserve_usable-rest ds s,
)

sum_pages-lt : (size : ℕ) (ds : List MemoryDescriptor) → size < u64 → sum_pages size ds < u64
unfolding sum_pages
sum_pages-lt size [] h = h
sum_pages-lt size (d ∷ ds) h =
    sum_pages-lt (add64 size (mul64 d.number_of_pages page_size)) ds (omega arith)

or_chain :
    (a b c u : Bool)
    → (if a then true else if b then true else if c then true else if u then false else true)
      ≡ (a || b || c || not u)
or_chain a b c u = ground arith

-- The words of the bitmap for this memory map.
abbrev pub words_of : List MemoryDescriptor → ℕ
words_of mmap = sum_pages 0 mmap / page_size / element_size

-- What `pmm_init` leaves for the allocator.
pub record Initialized (mmap : List MemoryDescriptor) (fb : Framebuffer) (kernel_end : ℕ) (base : ℕ)
    (s : Pmm) (s' : Pmm) : Type 0 where
  pub size : s'.bitmap_size ≡ words_of mmap
  pub small : IsSmall s'
  pub lock : s'.lock ≡ s.lock
  pub bits :
      (f : ℕ)
      → f < words_of mmap * 64
      → used s' f ≡ (
          in_run 0 (kernel_end / page_size + 1) f
          || in_run ((fb.base_address + 4095) / page_size) (fb.buffer_size / page_size) f
          || in_run ((base + 4095) / page_size) (words_of mmap * 8 / page_size) f
          || not (usable mmap f))

module _ (mmap : List MemoryDescriptor) (fb : Framebuffer) (kernel_end : ℕ) (d : MemoryDescriptor)
    (n : ℕ) (s : Pmm) where
  abbrev filled : Pmm
  filled = fill_bitmap (record s {
    mmap = mmap;
    last_found = 0;
    memory_size = sum_pages 0 mmap;
    bitmap_size = words_of mmap;
    bitmap_base = d.physical_start;
  })

  abbrev final : Pmm
  final = pmm_reserve_region 0 (kernel_end / page_size + 1) (
      pmm_reserve_region fb.base_address (fb.buffer_size / page_size) (
        pmm_reserve_region d.physical_start (words_of mmap * 8 / page_size)
          (unreserve_usable mmap filled)))

  runs :
      find_largest (record { pages = 0; segment = none }) mmap
        ≡ record { pages = n; segment = some d }
      → s.memory_size ≡ 0
      → words_of mmap * 8 < n
      → kernel_end < 2 ^ 63
      → pmm_init mmap fb kernel_end s ≡ ok tt final
  unfolding pmm_init
  runs e z lt k =
      let n0 : (n == 0) ≡ false = ground arith in
      let fits : ltb (mul64 (words_of mmap) 8) n ≡ true = ground (arith, sum_pages-lt 0 mmap) in
      let b : mul64 (words_of mmap) 8 ≡ words_of mmap * 8 = omega (arith, sum_pages-lt 0 mmap) in
      let kk : add64 (kernel_end / page_size) 1 ≡ kernel_end / page_size + 1 = omega arith in
      let no_size : ltb 0 s.memory_size ≡ false = ground arith in
      let sum : sum_pages s.memory_size mmap ≡ sum_pages 0 mmap = ap (λ m. sum_pages m mmap) z in
      rw (e, n0, no_size, sum, fits, (unreserve_usable-rest mmap filled).0, b, kk)

  -- `pmm_init`, when its two assertions hold, the memory size has not been computed yet, and no
  -- address of the map, the framebuffer or the kernel is near the end of the address space: it
  -- returns, keeps the lock, and makes a bitmap of as many words as the pages of the map, divided by
  -- 64 and rounded down. A frame of the bitmap is in use exactly if it is one of the kernel's, up to
  -- and with the page at `kernel_end`, or lies in one of two runs, or in no freed run. Of the two
  -- runs, one is for the framebuffer and one for the bitmap: each begins at the first page at or after
  -- the base, and has as many pages as the bytes make, rounded down, so that none are reserved for a
  -- bitmap of less than a page. The freed run of a usable region begins at the page of its start, or
  -- at page 1 if that is page 0, and has the region's number of pages.
  pub pmm_init-Initialized :
      find_largest (record { pages = 0; segment = none }) mmap
        ≡ record { pages = n; segment = some d }
      → s.memory_size ≡ 0
      → words_of mmap * 8 < n
      → kernel_end < 2 ^ 63
      → Fits mmap
      → d.physical_start + words_of mmap * 8 + 2 * page_size ≤ u64
      → fb.base_address + fb.buffer_size + 2 * page_size ≤ u64
      → (s' : Pmm) × (pmm_init mmap fb kernel_end s ≡ ok tt s')
        × Initialized mmap fb kernel_end d.physical_start s s'
  unfolding fill_bitmap
  pmm_init-Initialized e z lt k fits near_d near_fb = (
    final,
    runs e z lt k,
    record {
      size = rest.1;
      small =
          subst (λ w. w ≤ 2 ^ 46) (sym rest.1) (omega (arith, sum_pages-lt 0 mmap (omega arith)));
      lock = rest.2;
      bits = bits;
    },
  )
    where
      freed : Pmm
      freed = unreserve_usable mmap filled

      own : Pmm
      own = pmm_reserve_region d.physical_start (words_of mmap * 8 / page_size) freed

      screen : Pmm
      screen = pmm_reserve_region fb.base_address (fb.buffer_size / page_size) own

      rest :
          (final.bitmap_base ≡ d.physical_start)
          × (final.bitmap_size ≡ words_of mmap)
          × (final.lock ≡ s.lock)
      rest = ground (
        arith,
        reserve_region-rest 0 (kernel_end / page_size + 1) screen,
        reserve_region-rest fb.base_address (fb.buffer_size / page_size) own,
        reserve_region-rest d.physical_start (words_of mmap * 8 / page_size) freed,
        unreserve_usable-rest mmap filled,
      )

      bits :
          (f : ℕ)
          → f < words_of mmap * 64
          → used final f ≡ (
              in_run 0 (kernel_end / page_size + 1) f
              || in_run ((fb.base_address + 4095) / page_size) (fb.buffer_size / page_size) f
              || in_run ((d.physical_start + 4095) / page_size) (words_of mmap * 8 / page_size) f
              || not (usable mmap f))
      bits f h =
          let l1 = used-pmm_reserve_region screen 0 (kernel_end / page_size + 1) f (omega arith) in
          let l2 =
            used-pmm_reserve_region own fb.base_address (fb.buffer_size / page_size) f
              (omega arith) in
          let l3 =
            used-pmm_reserve_region freed d.physical_start (words_of mmap * 8 / page_size) f
              (omega arith) in
          let l4 = used-unreserve_usable mmap filled f fits in
          let l5 : used filled f ≡ true =
            let inside : ltb (f / 64) (words_of mmap) ≡ true = ground arith in rw inside in
          rw (l1, l2, l3, l4, l5)
            (or_chain (in_run 0 (kernel_end / page_size + 1) f)
              (in_run ((fb.base_address + 4095) / page_size) (fb.buffer_size / page_size) f)
              (in_run ((d.physical_start + 4095) / page_size) (words_of mmap * 8 / page_size) f)
              (usable mmap f))
