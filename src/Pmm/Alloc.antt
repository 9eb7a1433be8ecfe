-- ===== src/Pmm/Alloc.antt =====
-- `getFrames` and `pmm_getFrames` of kernel/src/mem/pmm.c: what a caller gets, and when.
use omega_os.Base.{
  ℕ, zero, suc, ◌+◌, ◌*◌, ◌%◌, ◌^◌, ◌≤◌, ◌<◌, ◌≡◌, ◌≢◌, ◌⊎◌, inl, inr, refl, subst, Bool, true,
  false, none, some, arith, Bool-cases, Option-cases, ◌==◌, if◌then◌else◌, ◌∙◌, ap, ap₂, ◌/◌, add64,
  mul64,
}
use omega_os.Base.Run.{Run, ok}
use omega_os.Pmm.{
  Pmm, Bitmap, set_frame, scan, get_frames, pmm_get_frames, set_frames, invalid_frame_index,
  page_size, is_full,
}
use omega_os.Pmm.Bits.{used, used-set_frames, in_run}
use omega_os.Pmm.Search.{FreeRun, Unbroken, IsSmall, FoundFree, scan-FoundFree}
use omega_os.Pmm.Complete.{scan-some}

abbrev pub locked : Pmm → Pmm
locked s = record s { lock = true }

module _ (s : Pmm) (n fuel : ℕ) (unlocked : s.lock ≡ false) where
  pub get_frames_found :
      (i k : ℕ)
      → scan n (locked s) ≡ some (i, k)
      → get_frames (suc fuel) n s ≡ ok k (record s { last_found = i; lock = false })
  unfolding get_frames
  get_frames_found i k e = rw (unlocked, e)

  get_frames_last :
      scan n (locked s) ≡ none
      → s.last_found ≡ 0
      → get_frames (suc fuel) n s ≡ ok invalid_frame_index (record s { lock = false })
  unfolding get_frames
  get_frames_last e z = ground arith

  get_frames_again :
      scan n (locked s) ≡ none
      → s.last_found ≢ 0
      → get_frames (suc fuel) n s ≡ get_frames fuel n (record s { last_found = 0; lock = false })
  unfolding get_frames
  get_frames_again e z = ground arith

-- What `getFrames` leaves: no lock held, no bit changed, and a free run or the mark of failure.
record Got (s : Pmm) (n k : ℕ) (s' : Pmm) : Type 0 where
  lock : s'.lock ≡ false
  bitmap : s'.bitmap ≡ s.bitmap
  size : s'.bitmap_size ≡ s.bitmap_size
  complete : (a : ℕ) → FreeRun s a n → a + n ≤ s.bitmap_size * 64 → k ≢ invalid_frame_index
  run : (k ≡ invalid_frame_index) ⊎ ((k + n ≤ s.bitmap_size * 64) × FreeRun s k n)

GotOk : Pmm → ℕ → Run Pmm ℕ → Type 0
GotOk s n r = (k : ℕ) × (s' : Pmm) × (r ≡ ok k s') × Got s n k s'

module _ (n : ℕ) (pos : 1 ≤ n) (fits : n < 2 ^ 64) where
  found-Got :
      (s : Pmm) (i k : ℕ)
      → Unbroken s n
      → IsSmall s
      → scan n (locked s) ≡ some (i, k)
      → Got s n k (record s { last_found = i; lock = false })
  unfolding is_full
  found-Got s i k un small e =
      let (lt, le, free) =
        subst (FoundFree (locked s) n) e (scan-FoundFree (locked s) n pos fits un small) in
      record {
        lock = refl;
        bitmap = refl;
        size = refl;
        complete = λ a h inside e. omega arith;
        run = inr (le, free);
      }

  no_run :
      (s : Pmm)
      → IsSmall s
      → s.last_found ≡ 0
      → scan n (locked s) ≡ none
      → (a : ℕ) → FreeRun s a n
      → a + n ≤ s.bitmap_size * 64
      → ⊥
  no_run s small z e a free inside =
      let (r, e') = scan-some (locked s) n a pos fits free small (omega arith) inside in cc

  -- The second pass starts at word 0, so no free run is missed.
  failed-Got :
      (s s' : Pmm)
      → IsSmall s
      → s.last_found ≡ 0
      → scan n (locked s) ≡ none
      → s'.lock ≡ false
      → s'.bitmap ≡ s.bitmap
      → s'.bitmap_size ≡ s.bitmap_size
      → Got s n invalid_frame_index s'
  failed-Got s s' small z e lock bitmap size = record {
    lock = lock;
    bitmap = bitmap;
    size = size;
    complete = λ a free inside _. no_run s small z e a free inside;
    run = inl refl;
  }

  get_frames-Got :
      (s : Pmm) → s.lock ≡ false → Unbroken s n → IsSmall s → GotOk s n (get_frames 2 n s)
  unfolding GotOk is_full
  get_frames-Got s unlocked un small = elim (Option-cases (scan n (locked s))) [
    | inr ((i, k), e) ↦ (
      k,
      record s { last_found = i; lock = false },
      get_frames_found s n 1 unlocked i k e,
      found-Got s i k un small e,
    )
    | inl e ↦ elim (Bool-cases (s.last_found == 0)) [
      | inl z ↦ (
        invalid_frame_index,
        record s { lock = false },
        get_frames_last s n 1 unlocked e (ground arith),
        failed-Got s (record s { lock = false }) small (ground arith) e refl refl refl,
      )
      | inr z ↦ rw (get_frames_again s n 1 unlocked e (ground arith)) (second)
    ]
  ]
    where
      s0 : Pmm
      s0 = record s { last_found = 0; lock = false }

      second : GotOk s n (get_frames 1 n s0)
      second = elim (Option-cases (scan n (locked s0))) [
        | inr ((i, k), e) ↦ (
          k,
          record s { last_found = i; lock = false },
          get_frames_found s0 n 0 refl i k e,
          let g = found-Got s0 i k un small e in
              record {
                lock = refl;
                bitmap = refl;
                size = refl;
                complete = g.complete;
                run = g.run;
              },
        )
        | inl e ↦ (
          invalid_frame_index,
          s0,
          get_frames_last s0 n 0 refl e refl,
          let g = failed-Got s0 s0 small refl e refl refl refl in
              record {
                lock = refl;
                bitmap = refl;
                size = refl;
                complete = g.complete;
                run = inl refl;
              },
        )
      ]

-- The loop of `setFrame` calls leaves the other variables alone.
set_frames-size : (k n i : ℕ) (s : Pmm) → (set_frames k n i s).bitmap_size ≡ s.bitmap_size
unfolding set_frames set_frame
set_frames-size k zero i s = refl
set_frames-size k (suc n) i s = set_frames-size k n (i + 1) (set_frame (add64 k i) s)

set_frames-lock : (k n i : ℕ) (s : Pmm) → (set_frames k n i s).lock ≡ s.lock
unfolding set_frames set_frame
set_frames-lock k zero i s = refl
set_frames-lock k (suc n) i s = set_frames-lock k n (i + 1) (set_frame (add64 k i) s)

-- The frames from number `k` on were free, lie inside the bitmap, and are now in use; no other
-- frame has changed, and the caller gets the address of the first.
pub record Allocated (s : Pmm) (n addr : ℕ) (s' : Pmm) : Type 0 where
  pub k : ℕ
  pub address : addr ≡ k * page_size
  pub inside : k + n ≤ s.bitmap_size * 64
  pub was_free : FreeRun s k n
  pub bits : (f : ℕ) → used s' f ≡ (if in_run k n f then true else used s f)

-- There is no run of `n` free frames, and nothing has changed.
pub record NoRoom (s : Pmm) (n addr : ℕ) (s' : Pmm) : Type 0 where
  pub address : addr ≡ 0
  pub no_run : (a : ℕ) → FreeRun s a n → a + n ≤ s.bitmap_size * 64 → ⊥
  pub bitmap : s'.bitmap ≡ s.bitmap

-- It returns, with the lock released and the size of the bitmap kept, and one of the two holds.
abbrev pub AllocOutcome : Pmm → ℕ → Type 0
AllocOutcome s n =
    (addr : ℕ) × (s' : Pmm) × (pmm_get_frames n s ≡ ok addr s')
    × (s'.lock ≡ false)
    × (s'.bitmap_size ≡ s.bitmap_size)
    × (NoRoom s n addr s' ⊎ Allocated s n addr s')

module _ (n : ℕ) (pos : 1 ≤ n) (fits : n < 2 ^ 64) where
  taken-Allocated :
      (s s' : Pmm) (k : ℕ)
      → IsSmall s
      → Got s n k s'
      → (k + n ≤ s.bitmap_size * 64) × FreeRun s k n
      → Allocated s n (mul64 k page_size) (set_frames k n 0 s')
  taken-Allocated s s' k small g (inside, free) = record {
    k = k;
    address = omega arith;
    inside = inside;
    was_free = free;
    bits = λ f.
        used-set_frames s' k n 0 f (omega arith)
        ∙ (let e : s'.bitmap ≡ s.bitmap = g.bitmap in
            ap₂ (λ (lo : ℕ) (b : Bool). if in_run lo n f then true else b) (omega arith)
              (ap (λ (bm : Bitmap). bm (f / 64) (f % 64)) e));
  }

  -- `pmm_getFrames` for a positive count, on a bitmap that is not locked and in which either one
  -- frame is asked for or no word is full: it returns, releases the lock, and keeps the size of the
  -- bitmap. Either it returns the address of `n` frames in a row which lie inside the bitmap and
  -- were all free, marks those frames and no other, or it returns 0, the bitmap has no `n` free
  -- frames in a row, and no bit has changed.
  pub pmm_get_frames-Allocated :
      (s : Pmm) → s.lock ≡ false → Unbroken s n → IsSmall s → AllocOutcome s n
  unfolding pmm_get_frames GotOk
  pmm_get_frames-Allocated s unlocked un small =
      let (k, s', e, g) = get_frames-Got n pos fits s unlocked un small in
      let some_frames : (n == 0) ≡ false = ground arith in
      elim g.run [
        | inl bad ↦ (
          0,
          s',
          ground (arith, e),
          g.lock,
          g.size,
          inl (record {
            address = refl;
            no_run = λ a free inside. g.complete a free inside bad;
            bitmap = g.bitmap;
          }),
        )
        | inr good ↦ (
          mul64 k page_size,
          set_frames k n 0 s',
          (let valid : (k == invalid_frame_index) ≡ false = ground arith in ground (arith, e)),
          set_frames-lock k n 0 s' ∙ g.lock,
          set_frames-size k n 0 s' ∙ g.size,
          inr (taken-Allocated s s' k small g good),
        )
      ]
