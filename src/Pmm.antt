-- ===== src/Pmm.antt =====
-- The physical memory manager: kernel/src/mem/pmm.c, with the rounding macros of
-- kernel/include/common.h and the descriptors of kernel/include/bootinfo.h.
pub mod Bits
pub mod Region
pub mod Init
pub mod Broken
pub mod Search
pub mod Complete
pub mod Alloc
mod Tests
use omega_os.Base.{
  ℕ, zero, suc, ◌+◌, ◌-◌, ◌*◌, ◌/◌, ◌%◌, ◌^◌, Bool, true, false, ◌&&◌, not, Option, none, some,
  List, [], ◌∷◌, ltb, leb, ◌==◌, if◌then◌else◌, u64, add64, sub64, mul64,
}
use omega_os.Base.Run.{Run, ok, deadlock, out_of_fuel, Cmd, pure, ◌>>=◌, ◌>>◌, gets, modify, assert}

abbrev pub page_size : ℕ
page_size = 4096

-- `g_bitmapElementSize`: the bits of a `uint64_t`.
abbrev pub element_size : ℕ
element_size = 64

abbrev pub invalid_frame_index : ℕ
invalid_frame_index = 2 ^ 64 - 1

abbrev pub mmap_free : ℕ
mmap_free = 7

-- The bitmap by word and bit, as the code addresses it; a set bit is a frame in use. Words past
-- `bitmap_size` are the memory behind the bitmap.
abbrev pub Bitmap : Type 0
Bitmap = ℕ → ℕ → Bool

pub record MemoryDescriptor : Type 0 where
  pub type : ℕ
  pub physical_start : ℕ
  pub number_of_pages : ℕ

pub record Framebuffer : Type 0 where
  pub base_address : ℕ
  pub buffer_size : ℕ

-- The file's static variables.
pub record Pmm : Type 0 where
  pub mmap : List MemoryDescriptor
  pub memory_size : ℕ
  pub bitmap : Bitmap
  pub bitmap_base : ℕ
  pub bitmap_size : ℕ
  pub last_found : ℕ
  pub lock : Bool

unfoldable pub rnd_up : ℕ → ℕ → ℕ
rnd_up num nm = if ltb num nm then nm else num / nm * nm

unfoldable pub rnd_down : ℕ → ℕ → ℕ
rnd_down num nm = (num + nm - 1) % u64 / nm * nm

abbrev pub write_bit : Bitmap → ℕ → ℕ → Bool → Bitmap
write_bit bm p b v i j = if i == p && j == b then v else bm i j

pub set_frame : ℕ → Pmm → Pmm
set_frame index s = record s {
  bitmap = write_bit s.bitmap (index / element_size) (index % element_size) true;
}

pub clear_frame : ℕ → Pmm → Pmm
clear_frame index s = record s {
  bitmap = write_bit s.bitmap (index / element_size) (index % element_size) false;
}

pub test_frame : ℕ → ℕ → Pmm → Bool
test_frame i bit s = s.bitmap i bit

lock_acquire : Cmd Pmm (Unit {0})
lock_acquire s = if s.lock then deadlock else ok tt (record s { lock = true })

lock_release : Cmd Pmm (Unit {0})
lock_release s = ok tt (record s { lock = false })

-- The variables of the search: `fbFound`, `index` and `bCopy`.
pub record Scan : Type 0 where
  pub found : Bool
  pub index : ℕ
  pub left : ℕ

pub data Step : Type 0 where
  hit : ℕ → Step
  more : Scan → Step

-- One round of the inner loop, at word `i` and bit `j`.
pub scan_bit : Pmm → (frames i j : ℕ) → Scan → Step
unfolding test_frame
scan_bit s frames i j sc =
    if not (test_frame i j s)
    then (let index = if sc.found then sc.index else add64 (mul64 i element_size) j in
        let left = sub64 sc.left 1 in
        if left == 0 then hit index else more (record { found = true; index = index; left = left }))
    else if sc.found
    then more (record sc { found = false; left = frames })
    else more sc

-- The inner loop with `n` rounds left.
pub scan_bits : Pmm → (frames i n j : ℕ) → Scan → Step
scan_bits s frames i zero j sc = more sc
scan_bits s frames i (suc n) j sc = elim (scan_bit s frames i j sc) [
  | hit index ↦ hit index
  | more sc' ↦ scan_bits s frames i n (j + 1) sc'
]

pub all_set : Pmm → (i n : ℕ) → Bool
all_set s i zero = true
all_set s i (suc n) = test_frame i n s && all_set s i n

-- `g_bitmap[i] == UINT64_MAX`.
pub is_full : Pmm → ℕ → Bool
unfolding all_set test_frame
is_full s i = all_set s i element_size

-- The outer loop with `n` words left: the word and the frame at which it stopped.
pub scan_words : Pmm → (frames n i : ℕ) → Scan → Option (ℕ × ℕ)
scan_words s frames zero i sc = none
scan_words s frames (suc n) i sc = elim (is_full s i) [
  | true ↦ scan_words s frames n (i + 1) sc
  | false ↦ elim (scan_bits s frames i element_size 0 sc) [
    | hit index ↦ some (i, index)
    | more sc' ↦ scan_words s frames n (i + 1) sc'
  ]
]

abbrev pub start : ℕ → Scan
start frames = record { found = false; index = 0; left = frames }

pub scan : ℕ → Pmm → Option (ℕ × ℕ)
unfolding scan_words scan_bits scan_bit is_full
scan frames s = scan_words s frames (s.bitmap_size - s.last_found) s.last_found (start frames)

-- `getFrames`. Its call of itself starts at word 0, where no third call follows, so two rounds of
-- fuel are enough.
pub get_frames : ℕ → ℕ → Cmd Pmm ℕ
unfolding lock_acquire lock_release
get_frames zero frames = λ s. out_of_fuel
get_frames (suc fuel) frames = do
  lock_acquire
  r ← gets (scan frames)
  elim r [
    | some (i, index) ↦ do modify (λ s. record s { last_found = i }); lock_release; pure index
    | none ↦ do
      lock_release
      last ← gets (λ s. s.last_found)
      if last == 0
          then pure invalid_frame_index
          else (do modify (λ s. record s { last_found = 0 }); get_frames fuel frames)
  ]

-- The loop of `setFrame` calls with `n` rounds left.
pub set_frames : (index n i : ℕ) → Pmm → Pmm
set_frames index zero i s = s
set_frames index (suc n) i s = set_frames index n (i + 1) (set_frame (add64 index i) s)

pub clear_frames : (index n i : ℕ) → Pmm → Pmm
clear_frames index zero i s = s
clear_frames index (suc n) i s = clear_frames index n (i + 1) (clear_frame (add64 index i) s)

-- `pmm_getFrames`: the address of the frames, or 0.
pub pmm_get_frames : ℕ → Cmd Pmm ℕ
pmm_get_frames count = if count == 0 then pure 0 else (do
  index ← get_frames 2 count
  if index == invalid_frame_index
      then pure 0
      else (do modify (set_frames index count 0); pure (mul64 index page_size)))

unfoldable pub pmm_get_frame : Cmd Pmm ℕ
pmm_get_frame = pmm_get_frames 1

pub pmm_release_frames : (addr count : ℕ) → Cmd Pmm (Unit {0})
pmm_release_frames addr count = do
  size ← gets (λ s. s.bitmap_size)
  assert (addr % page_size == 0 && leb (addr / page_size) size)
  modify (λ s. record s { last_found = addr / page_size })
  modify (clear_frames (addr / page_size) count 0)

unfoldable pub pmm_release_frame : ℕ → Cmd Pmm (Unit {0})
pmm_release_frame addr = pmm_release_frames addr 1

-- The loops of `pmm_reserveRegion` and `pmm_unreserveRegion`, from the rounded start.
pub reserve_pages : (rounded n i : ℕ) → Pmm → Pmm
reserve_pages rounded zero i s = s
reserve_pages rounded (suc n) i s =
    reserve_pages rounded n (i + 1) (set_frame (add64 rounded (mul64 i page_size) / page_size) s)

pub unreserve_pages : (rounded n i : ℕ) → Pmm → Pmm
unreserve_pages rounded zero i s = s
unreserve_pages rounded (suc n) i s =
    unreserve_pages rounded n (i + 1)
      (clear_frame (add64 rounded (mul64 i page_size) / page_size) s)

pub pmm_reserve_region : (start pc : ℕ) → Pmm → Pmm
pmm_reserve_region start pc = reserve_pages (rnd_down start page_size) pc 0

pub pmm_unreserve_region : (start pc : ℕ) → Pmm → Pmm
pmm_unreserve_region start pc = unreserve_pages (rnd_up start page_size) pc 0
