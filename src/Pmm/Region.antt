-- ===== src/Pmm/Region.antt =====
-- Releasing frames and reserving regions: `pmm_releaseFrames`, `pmm_reserveRegion` and
-- `pmm_unreserveRegion` of kernel/src/mem/pmm.c.
use omega_os.Base.{
  ℕ, zero, suc, ◌+◌, ◌-◌, ◌*◌, ◌/◌, ◌%◌, ◌≤◌, ◌<◌, ◌≡◌, ◌≢◌, subst, ◌^◌, refl, ◌⊎◌, inl, inr, true,
  false, arith, leb, ltb, dec_le, Bool-cases, sym, ap, ◌==◌, if◌then◌else◌, ◌∙◌, add64, mul64, u64,
}
use native.Mathlib.Nat.{div-add-mod', mod-lt, mul-mod_left}
use omega_os.Base.Run.{ok, panicked}
use omega_os.Pmm.{
  Pmm, page_size, pmm_get_frames, pmm_release_frames, clear_frames, clear_frame, set_frame, rnd_up,
  rnd_down, reserve_pages, unreserve_pages, pmm_reserve_region, pmm_unreserve_region,
}
use omega_os.Pmm.Bits.{used, used-clear_frames, used-set_frame, used-clear_frame, in_run}
use omega_os.Pmm.Alloc.{Allocated, pmm_get_frames-Allocated}
use omega_os.Pmm.Search.{IsSmall, Unbroken}

-- Frame `k` was given back with the `n - 1` after it: they are free, no other frame has changed, and
-- the next search starts at word `k`.
pub record Released (s : Pmm) (k n : ℕ) (s' : Pmm) : Type 0 where
  pub bits : (f : ℕ) → used s' f ≡ (if in_run k n f then false else used s f)
  pub last : s'.last_found ≡ k

clear_frames-last : (k n i : ℕ) (s : Pmm) → (clear_frames k n i s).last_found ≡ s.last_found
unfolding clear_frames clear_frame
clear_frames-last k zero i s = refl
clear_frames-last k (suc n) i s = clear_frames-last k n (i + 1) (clear_frame (add64 k i) s)

module _ (s : Pmm) (k n : ℕ) where
  aligned : (k * page_size % page_size == 0) ≡ true
  aligned = ground arith

  frame_number : k * page_size / page_size ≡ k
  frame_number = omega arith

  release_ok :
      k ≤ s.bitmap_size
      → pmm_release_frames (k * page_size) n s
        ≡ ok tt (clear_frames k n 0 (record s { last_found = k }))
  unfolding pmm_release_frames
  release_ok h = let t : leb k s.bitmap_size ≡ true = ground arith in rw (aligned, frame_number, t)

  release_panics : s.bitmap_size < k → pmm_release_frames (k * page_size) n s ≡ panicked
  unfolding pmm_release_frames
  release_panics h =
      let t : leb k s.bitmap_size ≡ false = ground arith in rw (aligned, frame_number, t)

  Released-clear : k + n ≤ u64 → Released s k n (clear_frames k n 0 (record s { last_found = k }))
  Released-clear fits = record {
    bits = λ f.
        used-clear_frames (record s { last_found = k }) k n 0 f (omega arith)
        ∙ ap (λ (lo : ℕ). if in_run lo n f then false else used s f) (omega arith);
    last = clear_frames-last k n 0 (record s { last_found = k });
  }

-- `pmm_releaseFrames` of an aligned address frees exactly its frames if the frame number is at most
-- the number of words of the bitmap, and panics if it is greater.
pub pmm_release_frames-Released :
    (s : Pmm) (k n : ℕ)
    → k + n ≤ u64
    → ((k ≤ s.bitmap_size)
        × ((s' : Pmm) × (pmm_release_frames (k * page_size) n s ≡ ok tt s') × Released s k n s'))
      ⊎ ((s.bitmap_size < k) × (pmm_release_frames (k * page_size) n s ≡ panicked))
pmm_release_frames-Released s k n fits = elim (dec_le k s.bitmap_size) [
  | yes h ↦ inl (
    h,
    (
      clear_frames k n 0 (record s { last_found = k }),
      release_ok s k n h,
      Released-clear s k n fits,
    ),
  )
  | no h ↦ inr (omega arith, release_panics s k n (omega arith))
]

release-Allocated :
    (s s' : Pmm) (n addr : ℕ) (a : Allocated s n addr s')
    → a.k ≤ s'.bitmap_size
    → a.k + n ≤ u64
    → (s'' : Pmm) × (pmm_release_frames addr n s' ≡ ok tt s'') × ((f : ℕ) → used s'' f ≡ used s f)
release-Allocated s s' n addr a low fits =
    let r = Released-clear s' a.k n fits in
    (
      clear_frames a.k n 0 (record s' { last_found = a.k }),
      rw a.address (release_ok s' a.k n low),
      λ f. r.bits f ∙ back f,
    )
  where
    back : (f : ℕ) → (if in_run a.k n f then false else used s' f) ≡ used s f
    back f = elim (Bool-cases (in_run a.k n f)) [
      | inl e ↦ rw e (sym (a.was_free f (ground arith) (ground arith)))
      | inr e ↦ rw e (a.bits f ∙ (rw e))
    ]

ok-value : {a b : ℕ} {s t : Pmm} → ok a s ≡ ok b t → a ≡ b
ok-value e = cc

ok-state : {a b : ℕ} {s t : Pmm} → ok a s ≡ ok b t → s ≡ t
ok-state e = cc

-- `pmm_getFrames` for a positive count below 2 ^ 64, on a bitmap that is not locked and in which either one frame
-- is asked for or no word is full, and then `pmm_releaseFrames` of what it has returned: when that is
-- not 0, and its frame's number is at most the number of words of the bitmap, the release returns,
-- and every frame has the state that it had before the two calls.
pub release-get :
    (n addr : ℕ) (s s' : Pmm)
    → 1 ≤ n
    → n < 2 ^ 64
    → s.lock ≡ false
    → Unbroken s n
    → IsSmall s
    → pmm_get_frames n s ≡ ok addr s'
    → addr ≢ 0
    → addr ≤ s.bitmap_size * page_size
    → (s'' : Pmm) × (pmm_release_frames addr n s' ≡ ok tt s'') × ((f : ℕ) → used s'' f ≡ used s f)
release-get n addr s s' pos word unlocked un small run nz low =
    let (addr', t, got, _, size, outcome) =
      pmm_get_frames-Allocated n pos word s unlocked un small in
    let same_addr : addr' ≡ addr = ok-value (sym got ∙ run) in
    let same_state : t ≡ s' = ok-state (sym got ∙ run) in
    elim outcome [
      | inl nothing ↦ absurd (nz (sym same_addr ∙ nothing.address))
      | inr a ↦
          let b : Allocated s n addr s' =
            subst (λ x. Allocated s n x s') same_addr
              (subst (λ u. Allocated s n addr' u) same_state a) in
          let size' : s'.bitmap_size ≡ s.bitmap_size =
            subst (λ (u : Pmm). u.bitmap_size ≡ s.bitmap_size) same_state size in
          release-Allocated s s' n addr b (omega (arith, low, size', b.address))
            (omega (arith, b.inside, small))
    ]

-- The multiple of `nm` at or below `num`.
floor_bounds :
    (num nm : ℕ)
    → 0 < nm
    → (num / nm * nm % nm ≡ 0) × (num / nm * nm ≤ num) × (num < num / nm * nm + nm)
floor_bounds num nm h = omega (arith, div-add-mod' num nm, mod-lt num h, mul-mod_left (num / nm) nm)

-- `RNDUP` rounds down: from `nm` on, it gives the greatest multiple of `nm` that is at most `num`.
pub rnd_up-rounds_down :
    (num nm : ℕ)
    → 0 < nm
    → nm ≤ num
    → (rnd_up num nm % nm ≡ 0) × (rnd_up num nm ≤ num) × (num < rnd_up num nm + nm)
unfolding rnd_up
rnd_up-rounds_down num nm h k =
    let t : ltb num nm ≡ false = ground arith in rw t (floor_bounds num nm h)

-- `RNDWN` rounds up, while the sum does not wrap: it gives the least multiple of `nm` that is at
-- least `num`.
pub rnd_down-rounds_up :
    (num nm : ℕ)
    → 0 < nm
    → num + nm ≤ u64
    → (rnd_down num nm % nm ≡ 0) × (num ≤ rnd_down num nm) × (rnd_down num nm < num + nm)
unfolding rnd_down
rnd_down-rounds_up num nm h k =
    let t : (num + nm - 1) % u64 ≡ num + nm - 1 = omega arith in
    rw t (omega (arith, floor_bounds (num + nm - 1) nm h))

used-reserve_pages :
    (r n i f : ℕ) (s : Pmm)
    → r % page_size ≡ 0
    → r + (i + n) * page_size ≤ u64
    → used (reserve_pages r n i s) f ≡ (if in_run (r / page_size + i) n f then true else used s f)
unfolding reserve_pages
used-reserve_pages r zero i f s a h = ground arith
used-reserve_pages r (suc n) i f s a h =
    let g : add64 r (mul64 i page_size) / page_size ≡ r / page_size + i = omega arith in
    rw g (
      ground (
        arith,
        used-reserve_pages r n (i + 1) f (set_frame (r / page_size + i) s) a,
        used-set_frame s f (r / page_size + i),
      ))

used-unreserve_pages :
    (r n i f : ℕ) (s : Pmm)
    → r % page_size ≡ 0
    → r + (i + n) * page_size ≤ u64
    → used (unreserve_pages r n i s) f
      ≡ (if in_run (r / page_size + i) n f then false else used s f)
unfolding unreserve_pages
used-unreserve_pages r zero i f s a h = ground arith
used-unreserve_pages r (suc n) i f s a h =
    let g : add64 r (mul64 i page_size) / page_size ≡ r / page_size + i = omega arith in
    rw g (
      ground (
        arith,
        used-unreserve_pages r n (i + 1) f (clear_frame (r / page_size + i) s) a,
        used-clear_frame s f (r / page_size + i),
      ))

-- `pmm_reserveRegion`, where no sum wraps, marks exactly `pc` frames, from the first frame that
-- begins at or after `start`.
pub used-pmm_reserve_region :
    (s : Pmm) (start pc f : ℕ)
    → start + pc * page_size + page_size ≤ u64
    → used (pmm_reserve_region start pc s) f
      ≡ (if in_run ((start + 4095) / page_size) pc f then true else used s f)
unfolding pmm_reserve_region rnd_down
used-pmm_reserve_region s start pc f h =
    used-reserve_pages (rnd_down start page_size) pc 0 f s (omega arith) (omega arith)
    ∙ ap (λ (lo : ℕ). if in_run lo pc f then true else used s f) (omega arith)

rnd_up_page :
    (start : ℕ)
    → (rnd_up start page_size % page_size ≡ 0)
      × (rnd_up start page_size / page_size
          ≡ (if ltb start page_size then 1 else start / page_size))
      × (rnd_up start page_size ≤ start + page_size)
unfolding rnd_up
rnd_up_page start = ground arith

-- `pmm_unreserveRegion`, where no sum wraps, frees exactly `pc` frames: from the frame that holds
-- the byte at `start`, or from frame 1 if that is frame 0.
pub used-pmm_unreserve_region :
    (s : Pmm) (start pc f : ℕ)
    → start + pc * page_size + page_size ≤ u64
    → used (pmm_unreserve_region start pc s) f ≡ (
        if in_run (if ltb start page_size then 1 else start / page_size) pc f
        then false
        else used s f)
unfolding pmm_unreserve_region
used-pmm_unreserve_region s start pc f h =
    let r = rnd_up_page start in
    used-unreserve_pages (rnd_up start page_size) pc 0 f s r.0 (omega arith)
    ∙ ap (λ (lo : ℕ). if in_run lo pc f then false else used s f) (omega arith)

-- Neither loop touches another variable that the allocator reads.
reserve_pages-rest :
    (r n i : ℕ) (s : Pmm)
    → ((reserve_pages r n i s).bitmap_base ≡ s.bitmap_base)
      × ((reserve_pages r n i s).bitmap_size ≡ s.bitmap_size)
      × ((reserve_pages r n i s).lock ≡ s.lock)
unfolding reserve_pages set_frame
reserve_pages-rest r zero i s = (refl, refl, refl)
reserve_pages-rest r (suc n) i s =
    reserve_pages-rest r n (i + 1) (set_frame (add64 r (mul64 i page_size) / page_size) s)

unreserve_pages-rest :
    (r n i : ℕ) (s : Pmm)
    → ((unreserve_pages r n i s).bitmap_base ≡ s.bitmap_base)
      × ((unreserve_pages r n i s).bitmap_size ≡ s.bitmap_size)
      × ((unreserve_pages r n i s).lock ≡ s.lock)
unfolding unreserve_pages clear_frame
unreserve_pages-rest r zero i s = (refl, refl, refl)
unreserve_pages-rest r (suc n) i s =
    unreserve_pages-rest r n (i + 1) (clear_frame (add64 r (mul64 i page_size) / page_size) s)

pub reserve_region-rest :
    (start pc : ℕ) (s : Pmm)
    → ((pmm_reserve_region start pc s).bitmap_base ≡ s.bitmap_base)
      × ((pmm_reserve_region start pc s).bitmap_size ≡ s.bitmap_size)
      × ((pmm_reserve_region start pc s).lock ≡ s.lock)
unfolding pmm_reserve_region
reserve_region-rest start pc s = reserve_pages-rest (rnd_down start page_size) pc 0 s

pub unreserve_region-rest :
    (start pc : ℕ) (s : Pmm)
    → ((pmm_unreserve_region start pc s).bitmap_base ≡ s.bitmap_base)
      × ((pmm_unreserve_region start pc s).bitmap_size ≡ s.bitmap_size)
      × ((pmm_unreserve_region start pc s).lock ≡ s.lock)
unfolding pmm_unreserve_region
unreserve_region-rest start pc s = unreserve_pages-rest (rnd_up start page_size) pc 0 s
