-- ===== src/Pmm/Complete.antt =====
-- The search of `getFrames` in kernel/src/mem/pmm.c does not miss a free run.
use omega_os.Base.{
  ℕ, zero, suc, ◌+◌, ◌-◌, ◌*◌, ◌^◌, ◌≤◌, ◌<◌, ◌≡◌, refl, subst, inl, inr, Bool, true, some, arith,
  Bool-cases, ◌==◌, dec_lt,
}
use omega_os.Pmm.{Pmm, Scan, Step, hit, more, scan_bit, scan_bits, is_full, scan_words, start, scan}
use omega_os.Pmm.Bits.{used, all_set-true}
use omega_os.Pmm.Search.{
  FreeRun, IsSmall, used_at, scan_bit_free, scan_bit_used, scan_bits_hit, scan_bits_more,
  scan_words_full, scan_words_hit, scan_words_more, Step-cases,
}

-- The search at `pos` will still count the run of frames from `a` on.
abbrev Late : (frames a pos left : ℕ) → Type 0
Late frames a pos left = (1 ≤ left) × (left ≤ frames) × (pos + left ≤ a + frames)

abbrev StepLate : (frames a pos : ℕ) → Step → Type 0
StepLate frames a pos (hit k) = Unit
StepLate frames a pos (more sc) = Late frames a pos sc.left

is_full-used :
    (s : Pmm) (i f : ℕ) → is_full s i ≡ true → i * 64 ≤ f → f < i * 64 + 64 → used s f ≡ true
unfolding is_full
is_full-used s i f full h k =
    let e : i * 64 + (f - i * 64) ≡ f = omega arith in
    subst (λ g. used s g ≡ true) e
      (rw (used_at s i (f - i * 64) (omega arith))
        (all_set-true s i 64 (f - i * 64) full (omega arith)))

module _ (s : Pmm) (frames a : ℕ) (frames_pos : 1 ≤ frames) (frames_small : frames < 2 ^ 64)
    (run : FreeRun s a frames) where
  -- A frame in use below the end of the run is below its beginning.
  lt_of_used : (pos : ℕ) → used s pos ≡ true → pos < a + frames → pos < a
  lt_of_used pos u h = elim (dec_lt pos a) [
    | yes p ↦ p
    | no p ↦ let free = run pos (omega arith) h in cc
  ]

  scan_bit-Late :
      (i j : ℕ) (found : Bool) (index left : ℕ)
      → j < 64
      → i * 64 + j < 2 ^ 64
      → Late frames a (i * 64 + j) left
      → StepLate frames a
          (i * 64 + (j + 1))
          (scan_bit s frames i j (record { found = found; index = index; left = left }))
  scan_bit-Late i j found index left hj small late = elim (Bool-cases (s.bitmap i j)) [
    | inl u ↦
        let lt = lt_of_used (i * 64 + j) (rw (used_at s i j hj) u) (omega arith) in
        rw (scan_bit_used s frames i j found index left u) (ground arith)
    | inr u ↦
        rw (scan_bit_free s frames i j found index left small late.0 (omega arith) u)
          (elim (Bool-cases (left == 1)) [
            | inl last ↦ rw last tt
            | inr rest ↦ rw rest (ground arith)
          ])
  ]

  scan_bits-Late :
      (i n j : ℕ) (sc : Scan)
      → j + n ≡ 64
      → i * 64 + 64 ≤ 2 ^ 64
      → Late frames a (i * 64 + j) sc.left
      → StepLate frames a ((i + 1) * 64) (scan_bits s frames i n j sc)
  unfolding scan_bits
  scan_bits-Late i zero j sc e small late = omega arith
  scan_bits-Late i (suc n) j sc e small late =
      let now = scan_bit-Late i j sc.found sc.index sc.left (omega arith) (omega arith) late in
      elim (Step-cases (scan_bit s frames i j sc)) [
        | inl (k, q) ↦ rw (scan_bits_hit s frames i n j sc k q) tt
        | inr (sc', q) ↦ rw (scan_bits_more s frames i n j sc sc' q) (
            scan_bits-Late i n (j + 1) sc' (omega arith) small
              (subst (StepLate frames a (i * 64 + (j + 1))) q now))
      ]

  Late-full :
      (i left : ℕ)
      → is_full s i ≡ true
      → Late frames a (i * 64) left
      → Late frames a ((i + 1) * 64) left
  Late-full i left full late = elim (dec_lt a (i * 64 + 64)) [
    | yes p ↦
        let first =
          lt_of_used (i * 64) (is_full-used s i (i * 64) full (omega arith) (omega arith))
            (omega arith) in
        let at_a = lt_of_used a (is_full-used s i a full (omega arith) p) (omega arith) in
        absurd (omega arith)
    | no p ↦ omega arith
  ]

  scan_words-some :
      (n i : ℕ) (sc : Scan)
      → IsSmall s
      → i + n ≡ s.bitmap_size
      → a + frames ≤ s.bitmap_size * 64
      → Late frames a (i * 64) sc.left
      → (r : ℕ × ℕ) × (scan_words s frames n i sc ≡ some r)
  scan_words-some zero i sc small e fits late = absurd (omega arith)
  scan_words-some (suc n) i sc small e fits late = elim (Bool-cases (is_full s i)) [
    | inl full ↦
        rw (scan_words_full s frames n i sc full)
          (scan_words-some n (i + 1) sc small (omega arith) fits (Late-full i sc.left full late))
    | inr free ↦
        let now = scan_bits-Late i 64 0 sc refl (omega arith) (omega arith) in
        elim (Step-cases (scan_bits s frames i 64 0 sc)) [
          | inl (k, q) ↦ ((i, k), scan_words_hit s frames n i sc k free q)
          | inr (sc', q) ↦ rw (scan_words_more s frames n i sc sc' free q) (
              scan_words-some n (i + 1) sc' small (omega arith) fits
                (subst (StepLate frames a ((i + 1) * 64)) q now))
        ]
  ]

  -- The search from `last_found` on succeeds if a free run lies behind it.
  pub scan-some :
      IsSmall s
      → s.last_found * 64 ≤ a
      → a + frames ≤ s.bitmap_size * 64
      → (r : ℕ × ℕ) × (scan frames s ≡ some r)
  unfolding scan
  scan-some small before fits =
      scan_words-some (s.bitmap_size - s.last_found) s.last_found (start frames) small (omega arith)
        fits (omega arith)
