-- ===== src/Pmm/Search.antt =====
-- The search of `getFrames` in kernel/src/mem/pmm.c: what it finds is free, and it finds a free run
-- where there is one.
use omega_os.Base.{
  ℕ, zero, suc, ◌+◌, ◌-◌, ◌*◌, ◌^◌, ◌≤◌, ◌<◌, ◌≡◌, refl, ap₂, subst, ◌⊎◌, inl, inr, Bool, true,
  false, ◌==◌, if◌then◌else◌, dec_lt, Option, none, some, arith, Bool-cases,
}
use omega_os.Pmm.{Pmm, Scan, Step, hit, more, scan_bit, scan_bits, is_full, scan_words, start, scan}
use omega_os.Pmm.Bits.{used}

-- The `n` frames from `lo` on are free.
abbrev pub FreeRun : Pmm → (lo n : ℕ) → Type 0
FreeRun s lo n = (f : ℕ) → lo ≤ f → f < lo + n → used s f ≡ false

-- Before position `pos` the search has counted the free frames from `index` on.
abbrev CountedAt : Pmm → (frames pos : ℕ) → Bool → (index left : ℕ) → Type 0
CountedAt s frames pos true index left =
    (index + frames ≡ pos + left)
    × (1 ≤ left)
    × (left < frames)
    × ((f : ℕ) → index ≤ f → f < pos → used s f ≡ false)
CountedAt s frames pos false index left = left ≡ frames

abbrev Counted : Pmm → (frames pos : ℕ) → Scan → Type 0
Counted s frames pos sc = CountedAt s frames pos sc.found sc.index sc.left

-- After the frame before `pos` has been looked at.
abbrev Scanned : Pmm → (frames pos : ℕ) → Step → Type 0
Scanned s frames pos (hit k) = (k + frames ≤ pos) × FreeRun s k frames
Scanned s frames pos (more sc) = Counted s frames pos sc

-- The outer loop is not led astray by words with no free frame: it looks for one frame, or there
-- is no such word.
abbrev pub Unbroken : Pmm → (frames : ℕ) → Type 0
Unbroken s frames = (frames ≡ 1) ⊎ ((i : ℕ) → i < s.bitmap_size → is_full s i ≡ false)

-- What a search found is a free run inside the bitmap.
abbrev pub FoundFree : Pmm → (frames : ℕ) → Option (ℕ × ℕ) → Type 0
FoundFree s frames none = Unit
FoundFree s frames (some (w, k)) =
    (w < s.bitmap_size) × (k + frames ≤ s.bitmap_size * 64) × FreeRun s k frames

-- The bitmap covers a physical address space of 64 bits.
abbrev pub IsSmall : Pmm → Type 0
IsSmall s = s.bitmap_size ≤ 2 ^ 46

-- `scan_bit` without the wrap-around.
pub scan_bit_free :
    (s : Pmm) (frames i j : ℕ) (found : Bool) (index left : ℕ)
    → i * 64 + j < 2 ^ 64
    → 1 ≤ left
    → left < 2 ^ 64
    → s.bitmap i j ≡ false
    → scan_bit s frames i j (record { found = found; index = index; left = left }) ≡ (
        let k = if found then index else i * 64 + j in
        if left == 1 then hit k else more (record { found = true; index = k; left = left - 1 }))
unfolding scan_bit
scan_bit_free s frames i j true index left small pos lt free = ground arith
scan_bit_free s frames i j false index left small pos lt free = ground arith

pub scan_bit_used :
    (s : Pmm) (frames i j : ℕ) (found : Bool) (index left : ℕ)
    → s.bitmap i j ≡ true
    → scan_bit s frames i j (record { found = found; index = index; left = left })
      ≡ more (record { found = false; index = index; left = if found then frames else left })
unfolding scan_bit
scan_bit_used s frames i j true index left e = rw e
scan_bit_used s frames i j false index left e = rw e

pub used_at : (s : Pmm) (i j : ℕ) → j < 64 → used s (i * 64 + j) ≡ s.bitmap i j
used_at s i j h = ap₂ s.bitmap (omega arith) (omega arith)

free_snoc :
    (s : Pmm) (lo pos : ℕ)
    → ((f : ℕ) → lo ≤ f → f < pos → used s f ≡ false)
    → used s pos ≡ false
    → (f : ℕ) → lo ≤ f
    → f < pos + 1
    → used s f ≡ false
free_snoc s lo pos before at f h k = elim (dec_lt f pos) [
  | yes p ↦ before f h p
  | no p ↦ let e : f ≡ pos = omega arith in rw e at
]

-- The inner loop after a round that stops, and after one that does not.
pub scan_bits_hit :
    (s : Pmm) (frames i n j : ℕ) (sc : Scan) (k : ℕ)
    → scan_bit s frames i j sc ≡ hit k
    → scan_bits s frames i (suc n) j sc ≡ hit k
unfolding scan_bits
scan_bits_hit s frames i n j sc k e = ground arith

pub scan_bits_more :
    (s : Pmm) (frames i n j : ℕ) (sc sc' : Scan)
    → scan_bit s frames i j sc ≡ more sc'
    → scan_bits s frames i (suc n) j sc ≡ scan_bits s frames i n (j + 1) sc'
unfolding scan_bits
scan_bits_more s frames i n j sc sc' e = ground arith

-- The outer loop at a full word, and at another.
pub scan_words_full :
    (s : Pmm) (frames n i : ℕ) (sc : Scan)
    → is_full s i ≡ true
    → scan_words s frames (suc n) i sc ≡ scan_words s frames n (i + 1) sc
unfolding scan_words
scan_words_full s frames n i sc e = ground arith

pub scan_words_hit :
    (s : Pmm) (frames n i : ℕ) (sc : Scan) (k : ℕ)
    → is_full s i ≡ false
    → scan_bits s frames i 64 0 sc ≡ hit k
    → scan_words s frames (suc n) i sc ≡ some (i, k)
unfolding scan_words
scan_words_hit s frames n i sc k e h = ground arith

pub scan_words_more :
    (s : Pmm) (frames n i : ℕ) (sc sc' : Scan)
    → is_full s i ≡ false
    → scan_bits s frames i 64 0 sc ≡ more sc'
    → scan_words s frames (suc n) i sc ≡ scan_words s frames n (i + 1) sc'
unfolding scan_words
scan_words_more s frames n i sc sc' e h = ground arith

-- While one frame is looked for, nothing is counted between two words.
Counted-skip :
    (s : Pmm) (frames pos pos' : ℕ) (found : Bool) (index left : ℕ)
    → frames ≡ 1
    → CountedAt s frames pos found index left
    → CountedAt s frames pos' found index left
Counted-skip s frames pos pos' true index left one (e, pos1, lt, free) = absurd (omega arith)
Counted-skip s frames pos pos' false index left one c = c

pub Step-cases : (st : Step) → ((k : ℕ) × (st ≡ hit k)) ⊎ ((sc : Scan) × (st ≡ more sc))
Step-cases (hit k) = inl (k, refl)
Step-cases (more sc) = inr (sc, refl)

module _ (s : Pmm) (frames : ℕ) (frames_pos : 1 ≤ frames) (frames_small : frames < 2 ^ 64) where
  scan_bit-Scanned :
      (i j : ℕ) (found : Bool) (index left : ℕ)
      → j < 64
      → i * 64 + j < 2 ^ 64
      → CountedAt s frames (i * 64 + j) found index left
      → Scanned s frames
          (i * 64 + j + 1)
          (scan_bit s frames i j (record { found = found; index = index; left = left }))
  scan_bit-Scanned i j true index left hj small (e, pos, lt, free) =
      elim (Bool-cases (s.bitmap i j)) [
        | inl u ↦ rw (scan_bit_used s frames i j true index left u) refl
        | inr u ↦
            let now : used s (i * 64 + j) ≡ false = rw (used_at s i j hj) u in
            rw (scan_bit_free s frames i j true index left small pos (omega arith) u)
              (elim (Bool-cases (left == 1)) [
                | inl last ↦ rw last (
                  ground arith,
                  λ f h k. free_snoc s index (i * 64 + j) free now f h (ground arith),
                )
                | inr rest ↦ rw rest (
                  ground arith,
                  ground arith,
                  omega arith,
                  free_snoc s index (i * 64 + j) free now,
                )
              ])
      ]
  scan_bit-Scanned i j false index left hj small e = elim (Bool-cases (s.bitmap i j)) [
    | inl u ↦ rw (scan_bit_used s frames i j false index left u) e
    | inr u ↦
        let now : used s (i * 64 + j) ≡ false = rw (used_at s i j hj) u in
        let one = free_snoc s (i * 64 + j) (i * 64 + j) (λ f h k. absurd (omega arith)) now in
        rw (scan_bit_free s frames i j false index left small (omega arith) (omega arith) u)
          (elim (Bool-cases (left == 1)) [
            | inl last ↦ rw last (ground arith, λ f h k. one f h (ground arith))
            | inr rest ↦ rw rest (ground arith, ground arith, ground arith, one)
          ])
  ]

  scan_bits-Scanned :
      (i n j : ℕ) (sc : Scan)
      → j + n ≡ 64
      → i * 64 + 64 ≤ 2 ^ 64
      → Counted s frames (i * 64 + j) sc
      → Scanned s frames (i * 64 + 64) (scan_bits s frames i n j sc)
  unfolding scan_bits
  scan_bits-Scanned i zero j sc e small c = let p : i * 64 + 64 ≡ i * 64 + j = omega arith in rw p c
  scan_bits-Scanned i (suc n) j sc e small c =
      let now = scan_bit-Scanned i j sc.found sc.index sc.left (omega arith) (omega arith) c in
      elim (Step-cases (scan_bit s frames i j sc)) [
        | inl (k, q) ↦
            let (le, free) = subst (Scanned s frames (i * 64 + j + 1)) q now in
            rw (scan_bits_hit s frames i n j sc k q) (omega arith, free)
        | inr (sc', q) ↦
            let now' = subst (Scanned s frames (i * 64 + j + 1)) q now in
            rw (scan_bits_more s frames i n j sc sc' q) (
              scan_bits-Scanned i n (j + 1) sc' (omega arith) small
                (subst (λ p. Counted s frames p sc') (omega arith) now'))
      ]

  scan_words-FoundFree :
      (n i : ℕ) (sc : Scan)
      → Unbroken s frames
      → IsSmall s
      → i + n ≡ s.bitmap_size
      → Counted s frames (i * 64) sc
      → FoundFree s frames (scan_words s frames n i sc)
  unfolding scan_words
  scan_words-FoundFree zero i sc un small e c = tt
  scan_words-FoundFree (suc n) i sc un small e c = elim (Bool-cases (is_full s i)) [
    | inl full ↦
        rw (scan_words_full s frames n i sc full)
          (scan_words-FoundFree n (i + 1) sc un small (omega arith) (skip full))
    | inr free ↦
        let now = scan_bits-Scanned i 64 0 sc refl (omega arith) at_zero in
        elim (Step-cases (scan_bits s frames i 64 0 sc)) [
          | inl (k, q) ↦
              let (le, run) = subst (Scanned s frames (i * 64 + 64)) q now in
              rw (scan_words_hit s frames n i sc k free q) (omega arith, omega arith, run)
          | inr (sc', q) ↦
              let now' = subst (Scanned s frames (i * 64 + 64)) q now in
              rw (scan_words_more s frames n i sc sc' free q) (
                scan_words-FoundFree n (i + 1) sc' un small (omega arith)
                  (subst (λ p. Counted s frames p sc') (omega arith) now'))
        ]
  ]
    where
      at_zero : Counted s frames (i * 64 + 0) sc
      at_zero = subst (λ p. Counted s frames p sc) (omega arith) c

      skip : is_full s i ≡ true → Counted s frames ((i + 1) * 64) sc
      skip full = elim un [
        | inl one ↦ Counted-skip s frames (i * 64) ((i + 1) * 64) sc.found sc.index sc.left one c
        | inr none_full ↦ let not_full = none_full i (omega arith) in cc
      ]

  -- A search from word `last_found` on finds a free run, if anything.
  pub scan-FoundFree : Unbroken s frames → IsSmall s → FoundFree s frames (scan frames s)
  unfolding scan scan_words
  scan-FoundFree un small = elim (dec_lt s.last_found s.bitmap_size) [
    | yes p ↦
        scan_words-FoundFree (s.bitmap_size - s.last_found) s.last_found (start frames) un small
          (omega arith) refl
    | no p ↦
        subst (λ n. FoundFree s frames (scan_words s frames n s.last_found (start frames)))
          (let z : 0 ≡ s.bitmap_size - s.last_found = omega arith in z) tt
  ]
