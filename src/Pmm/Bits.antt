-- ===== src/Pmm/Bits.antt =====
-- The bit operations of kernel/src/mem/pmm.c, by frame.
use omega_os.Base.{
  ℕ, zero, suc, ◌+◌, ◌/◌, ◌%◌, ◌≤◌, ◌<◌, ◌≡◌, Bool, true, false, ◌&&◌, arith, ltb, leb, ◌==◌,
  if◌then◌else◌, add64, u64,
}
use omega_os.Pmm.{
  Pmm, element_size, set_frame, clear_frame, set_frames, clear_frames, all_set, test_frame,
}

-- Whether frame `f` is marked as in use.
abbrev pub used : Pmm → ℕ → Bool
used s f = s.bitmap (f / element_size) (f % element_size)

same_frame : (f g : ℕ) → (f / 64 == g / 64 && f % 64 == g % 64) ≡ (f == g)
same_frame f g = ground arith

pub used-set_frame :
    (s : Pmm) (f g : ℕ) → used (set_frame g s) f ≡ (if f == g then true else used s f)
unfolding set_frame
used-set_frame s f g = rw (same_frame f g)

pub used-clear_frame :
    (s : Pmm) (f g : ℕ) → used (clear_frame g s) f ≡ (if f == g then false else used s f)
unfolding clear_frame
used-clear_frame s f g = rw (same_frame f g)

-- `f` is one of the `n` frames from `lo` on.
abbrev pub in_run : (lo n f : ℕ) → Bool
in_run lo n f = leb lo f && ltb f (lo + n)

pub used-set_frames :
    (s : Pmm) (index n i f : ℕ)
    → index + i + n ≤ u64
    → used (set_frames index n i s) f ≡ (if in_run (index + i) n f then true else used s f)
unfolding set_frames
used-set_frames s index zero i f h = ground arith
used-set_frames s index (suc n) i f h = ground (
  arith,
  used-set_frames (set_frame (add64 index i) s) index n (i + 1) f,
  used-set_frame s f (add64 index i),
)

pub used-clear_frames :
    (s : Pmm) (index n i f : ℕ)
    → index + i + n ≤ u64
    → used (clear_frames index n i s) f ≡ (if in_run (index + i) n f then false else used s f)
unfolding clear_frames
used-clear_frames s index zero i f h = ground arith
used-clear_frames s index (suc n) i f h = ground (
  arith,
  used-clear_frames (clear_frame (add64 index i) s) index n (i + 1) f,
  used-clear_frame s f (add64 index i),
)

pub all_set-true : (s : Pmm) (i n j : ℕ) → all_set s i n ≡ true → j < n → s.bitmap i j ≡ true
unfolding all_set test_frame
all_set-true s i zero j e h = absurd (omega arith)
all_set-true s i (suc n) j e h = ground (arith, all_set-true s i n j)
