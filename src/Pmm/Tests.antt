-- ===== src/Pmm/Tests.antt =====
-- The theorems about kernel/src/mem/pmm.c at concrete bitmaps, and runs of the allocator.
use omega_os.Base.{
  ℕ, ◌*◌, ◌/◌, ◌≤◌, ◌≡◌, refl, inl, inr, Bool-cases, true, false, ◌⊎◌, ◌<◌, List, [], ◌∷◌, arith,
  ltb, ◌==◌, if◌then◌else◌, ◌&&◌,
}
use omega_os.Base.Run.{ok, panicked}
use omega_os.Pmm.{
  Pmm, MemoryDescriptor, Framebuffer, pmm_get_frames, pmm_get_frame, pmm_release_frames, is_full,
  set_frames, pmm_unreserve_region, set_frame, scan, get_frames,
}
use omega_os.Pmm.Bits.{all_set-true, used, in_run}
use omega_os.Pmm.Alloc.{AllocOutcome, pmm_get_frames-Allocated}
use omega_os.Pmm.Region.{
  Released, pmm_release_frames-Released, release-get, used-pmm_unreserve_region,
}
use omega_os.Pmm.Init.{Initialized, pmm_init, pmm_init-Initialized, find_largest, sum_pages}
use omega_os.Pmm.Search.{Unbroken}
use omega_os.Pmm.Broken.{Split, pmm_get_frames-used}

-- Words 0 and 2 have one free frame, word 1 has none, and word 3 has none in use.
abbrev sample : Pmm
sample = record {
  mmap = [];
  memory_size = 0;
  bitmap = λ i j.
      if i == 0 then ltb j 63 else if i == 1 then true else if i == 2 then ltb 0 j else false;
  bitmap_base = 0x10_0000;
  bitmap_size = 4;
  last_found = 0;
  lock = false;
}

-- The last frame of word 0 is at page 63.
get_one : (s' : Pmm) × (pmm_get_frame sample ≡ ok (63 * 4096) s')
unfolding pmm_get_frame pmm_get_frames get_frames scan set_frame set_frames
get_one = (set_frame 63 (record sample { last_found = 0 }), refl)

pmm_get_frames-Allocated_example : AllocOutcome sample 1
pmm_get_frames-Allocated_example =
    pmm_get_frames-Allocated 1 (omega arith) (omega arith) sample refl (inl refl) (omega arith)

-- Frames 192 to 255 are given back.
pmm_release_frames-Released_example :
    ((3 ≤ 4)
      × ((s' : Pmm) × (pmm_release_frames (3 * 4096) 5 sample ≡ ok tt s') × Released sample 3 5 s'))
    ⊎ ((4 < 3) × (pmm_release_frames (3 * 4096) 5 sample ≡ panicked))
pmm_release_frames-Released_example = pmm_release_frames-Released sample 3 5 (omega arith)

-- A frame that the allocator may well hand out cannot be given back.
release_high_frame : pmm_release_frames (63 * 4096) 1 sample ≡ panicked
unfolding pmm_release_frames
release_high_frame = refl

-- Two free frames at the start of the bitmap.
abbrev low : Pmm
low = record sample { bitmap = λ i j. i == 0 && j == 0 }

low_taken : pmm_get_frames 2 low ≡ ok 0x1000 (set_frames 1 2 0 low)
unfolding pmm_get_frames get_frames scan set_frame set_frames
low_taken = refl

low-Unbroken : Unbroken low 2
unfolding is_full
low-Unbroken = inr (λ i h. elim (Bool-cases (is_full low i)) [
  | inl full ↦ (let set = all_set-true low i 64 63 full (omega arith) in ground (arith, set))
  | inr e ↦ e
])

release-get_example :
    (s'' : Pmm) × (pmm_release_frames 0x1000 2 (set_frames 1 2 0 low) ≡ ok tt s'')
    × ((f : ℕ) → used s'' f ≡ used low f)
release-get_example =
    release-get 2 0x1000 low (set_frames 1 2 0 low) (omega arith) (omega arith) refl low-Unbroken
      (omega arith) low_taken (ground arith) (omega arith)

used-pmm_unreserve_region_example :
    used (pmm_unreserve_region 0 3 sample) 0
    ≡ (if in_run (if ltb 0 4096 then 1 else 0 / 4096) 3 0 then false else used sample 0)
used-pmm_unreserve_region_example = used-pmm_unreserve_region sample 0 3 0 (omega arith)

sample-Split : Split sample 0
unfolding is_full
sample-Split = record {
  first = refl;
  inside = omega arith;
  small = omega arith;
  below = λ b h. ground arith;
  last = refl;
  full = refl;
  after = refl;
}

pmm_get_frames-used_example :
    ((s' : Pmm) × (pmm_get_frames 2 sample ≡ ok (63 * 4096) s')) × (used sample 64 ≡ true)
pmm_get_frames-used_example = pmm_get_frames-used sample 0 refl sample-Split

-- A machine with a hole below 1 MiB, and 64 MiB of usable memory above it.
abbrev low_memory : MemoryDescriptor
low_memory = record { type = 0; physical_start = 0; number_of_pages = 256 }

abbrev high_memory : MemoryDescriptor
high_memory = record { type = 7; physical_start = 0x10_0000; number_of_pages = 16384 }

abbrev map : List MemoryDescriptor
map = low_memory ∷ high_memory ∷ []

abbrev screen : Framebuffer
screen = record { base_address = 0xc000_0000; buffer_size = 0x30_0000 }

pmm_init-Initialized_example :
    (s' : Pmm) × (pmm_init map screen 0x20_0000 sample ≡ ok tt s')
    × Initialized map screen 0x20_0000 0x10_0000 sample s'
unfolding find_largest sum_pages
pmm_init-Initialized_example =
    pmm_init-Initialized map screen 0x20_0000 high_memory 16384 sample refl refl (omega arith)
      (omega arith) (omega arith) (omega arith) (omega arith)
