-- ===== src/Pmm/Broken.antt =====
-- `getFrames` of kernel/src/mem/pmm.c skips a full word without forgetting the run that it is
-- counting, so the frames that it returns need not lie next to one another.
use omega_os.Base.{
  ℕ, zero, suc, ◌+◌, ◌-◌, ◌*◌, ◌≤◌, ◌<◌, ◌≡◌, refl, ◌∙◌, ap, Bool-cases, inl, inr, subst, true,
  false, some, arith, ◌==◌, mul64,
}
use omega_os.Base.Run.{ok}
use omega_os.Pmm.{
  Pmm, Scan, hit, more, scan, scan_bits, scan_words, start, is_full, pmm_get_frames, set_frames,
  page_size, invalid_frame_index,
}
use omega_os.Pmm.Bits.{used, all_set-true}
use omega_os.Pmm.Search.{
  IsSmall, used_at, scan_bit_free, scan_bit_used, scan_bits_hit, scan_bits_more, scan_words_full,
  scan_words_hit, scan_words_more,
}
use omega_os.Pmm.Alloc.{locked, get_frames_found}

abbrev counting : (index : ℕ) → Scan
counting index = record { found = true; index = index; left = 1 }

-- The last frame of word `i` is free and the others are in use, the next word is full, and the first
-- frame of the word after it is free.
pub record Split (s : Pmm) (i : ℕ) : Type 0 where
  pub first : s.last_found ≡ i
  pub inside : i + 3 ≤ s.bitmap_size
  pub small : IsSmall s
  pub below : (b : ℕ) → b < 63 → s.bitmap i b ≡ true
  pub last : s.bitmap i 63 ≡ false
  pub full : is_full s (i + 1) ≡ true
  pub after : s.bitmap (i + 2) 0 ≡ false

module _ (s : Pmm) (i : ℕ) (sp : Split s i) where
  first_word :
      (n j : ℕ)
      → j + suc n ≡ 64
      → scan_bits s 2 i (suc n) j (start 2) ≡ more (counting (i * 64 + 63))
  unfolding scan_bits
  first_word zero j e =
      let last : j ≡ 63 = omega arith in
      let free : s.bitmap i j ≡ false = rw last sp.last in
      let here =
        scan_bit_free s 2 i j false 0 2 (omega (arith, sp.inside, sp.small)) (omega arith)
          (omega arith) free in
      scan_bits_more s 2 i 0 j (start 2) (counting (i * 64 + j)) here
      ∙ ap (λ (b : ℕ). more (counting (i * 64 + b))) last
  first_word (suc n) j e =
      let here = scan_bit_used s 2 i j false 0 2 (sp.below j (omega arith)) in
      scan_bits_more s 2 i (suc n) j (start 2) (start 2) here ∙ first_word n (j + 1) (omega arith)

  not_full : (w b : ℕ) → b < 64 → s.bitmap w b ≡ false → is_full s w ≡ false
  unfolding is_full
  not_full w b h free = elim (Bool-cases (is_full s w)) [
    | inl full ↦ let set = all_set-true s w 64 b full h in cc
    | inr e ↦ e
  ]

  third_word : scan_bits s 2 (i + 2) 64 0 (counting (i * 64 + 63)) ≡ hit (i * 64 + 63)
  third_word = scan_bits_hit s 2 (i + 2) 63 0 (counting (i * 64 + 63)) (i * 64 + 63) (
      scan_bit_free s 2 (i + 2) 0 true (i * 64 + 63) 1 (omega (arith, sp.inside, sp.small))
        (omega arith) (omega arith) sp.after)

  scan-hit : scan 2 s ≡ some (i + 2, i * 64 + 63)
  unfolding scan
  scan-hit =
      let n : s.bitmap_size - i ≡ suc (suc (suc (s.bitmap_size - i - 3))) =
        omega (arith, sp.inside) in
      rw
        (
          sp.first,
          n,
          scan_words_more s 2 (suc (suc (s.bitmap_size - i - 3))) i (start 2)
              (counting (i * 64 + 63)) (not_full i 63 (omega arith) sp.last) (first_word 63 0 refl),
          scan_words_full s 2 (suc (s.bitmap_size - i - 3)) (i + 1) (counting (i * 64 + 63))
              sp.full,
        )
        (subst
          (λ w.
            scan_words s 2 (suc (s.bitmap_size - i - 3)) w (counting (i * 64 + 63))
            ≡ some (i + 2, i * 64 + 63))
          (let w : i + 2 ≡ i + 1 + 1 = omega arith in w)
          (scan_words_hit s 2 (s.bitmap_size - i - 3) (i + 2) (counting (i * 64 + 63)) (i * 64 + 63)
            (not_full (i + 2) 0 (omega arith) sp.after) third_word))

locked-Split : (s : Pmm) (i : ℕ) → Split s i → Split (locked s) i
unfolding is_full
locked-Split s i sp = record {
  first = sp.first;
  inside = sp.inside;
  small = sp.small;
  below = sp.below;
  last = sp.last;
  full = sp.full;
  after = sp.after;
}

next_used : (s : Pmm) (i : ℕ) → Split s i → used s (i * 64 + 64) ≡ true
unfolding is_full
next_used s i sp =
    let e : (i + 1) * 64 + 0 ≡ i * 64 + 64 = omega arith in
    subst (λ f. used s f ≡ true) e
      (rw (used_at s (i + 1) 0 (omega arith)) (all_set-true s (i + 1) 64 0 sp.full (omega arith)))

-- When the search for two frames begins at a word whose last frame alone is free, the next word is
-- full, and the first frame of the word after that is free, `pmm_getFrames(2)` returns the address of that last frame,
-- although the frame behind it is in use by somebody else.
pub pmm_get_frames-used :
    (s : Pmm) (i : ℕ)
    → s.lock ≡ false
    → Split s i
    → ((s' : Pmm) × (pmm_get_frames 2 s ≡ ok ((i * 64 + 63) * page_size) s'))
      × (used s (i * 64 + 64) ≡ true)
unfolding pmm_get_frames
pmm_get_frames-used s i unlocked sp =
    let found = scan-hit (locked s) i (locked-Split s i sp) in
    let got = get_frames_found s 2 1 unlocked (i + 2) (i * 64 + 63) found in
    let valid : (i * 64 + 63 == invalid_frame_index) ≡ false =
      ground (arith, sp.inside, sp.small) in
    let address : mul64 (i * 64 + 63) page_size ≡ (i * 64 + 63) * page_size = omega arith in
    (
      (
        set_frames (i * 64 + 63) 2 0 (record s { last_found = i + 2; lock = false }),
        rw (got, valid, address),
      ),
      next_used s i sp,
    )
