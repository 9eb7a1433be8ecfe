-- ===== src/Vmm/Unmap.antt =====
-- `vmm_unmapPage` of kernel/src/mem/vmm.c.
use omega_os.Base.{
  ℕ, ◌-◌, ◌*◌, ◌^◌, ◌≤◌, ◌<◌, ◌≡◌, ◌≢◌, true, false, none, some, arith, if◌then◌else◌, ◌⊎◌, inl,
  inr, sym, ◌∙◌, subst, Bool-cases, Option-cases,
}
use omega_os.Base.Run.{Run, ok, panicked, Cmd}
use omega_os.Pmm.{Pmm, page_size, pmm_release_frame, pmm_release_frames}
use omega_os.Pmm.Bits.{used, in_run}
use omega_os.Pmm.Region.{pmm_release_frames-Released}
use omega_os.Vmm.{
  Vmm, present, address, target, index, walk, page_at, virt2phys, on_pmm, unmap_at, vmm_unmap_page,
}
use omega_os.Vmm.Entry.{page}
use omega_os.Vmm.Paged.{IsPaged}
use omega_os.Vmm.Walk.{walk-level}
use omega_os.Vmm.Create.{on_pmm-ok}
use omega_os.Vmm.Map.{written, translation-off, translation-elsewhere}

present-off : (raw : ℕ) → present raw ≡ true → present (raw - 1) ≡ false
unfolding present
present-off raw on = ground arith

address_bound : (raw : ℕ) → address raw < 2 ^ 40
unfolding address
address_bound raw = omega arith

-- The page of `virt` is translated no more and all others as before; the frame that it was mapped to
-- is free, and no other frame has changed.
pub record Unmapped (s : Vmm) (pml4 virt frame : ℕ) (s' : Vmm) : Type 0 where
  pub here : (w : ℕ) → page w ≡ page virt → virt2phys pml4 w s' ≡ 0
  pub elsewhere : (w : ℕ) → page w ≢ page virt → virt2phys pml4 w s' ≡ virt2phys pml4 w s
  pub bits : (f : ℕ) → used s'.pmm f ≡ (if in_run frame 1 f then false else used s.pmm f)

on_pmm-panicked :
    {A : Type 0} (m : Cmd Pmm A) (s : Vmm) → m s.pmm ≡ panicked → on_pmm m s ≡ panicked
unfolding on_pmm
on_pmm-panicked m s run = rw (on_pmm, run)

-- `vmm_unmapPage` clears the entry and then calls `pmm_releaseFrame`.
abbrev cleared : Vmm → (pt i : ℕ) → Vmm
cleared s pt i = written s pt i (s.tables pt i - 1)

unmap_at-on :
    (s : Vmm) (pt i : ℕ) (p : Pmm)
    → present (s.tables pt i) ≡ true
    → pmm_release_frames (target (s.tables pt i)) 1 s.pmm ≡ ok tt p
    → unmap_at pt i s ≡ ok (target (s.tables pt i)) (record (cleared s pt i) { pmm = p })
unfolding unmap_at pmm_release_frame
unmap_at-on s pt i p on run = rw (
  unmap_at,
  on,
  on_pmm-ok (pmm_release_frames (target (s.tables pt i)) 1) (cleared s pt i) tt p run,
)

unmap_at-panicked :
    (s : Vmm) (pt i : ℕ)
    → present (s.tables pt i) ≡ true
    → pmm_release_frames (target (s.tables pt i)) 1 s.pmm ≡ panicked
    → unmap_at pt i s ≡ panicked
unfolding unmap_at pmm_release_frame
unmap_at-panicked s pt i on run = rw (
  unmap_at,
  on,
  on_pmm-panicked (pmm_release_frames (target (s.tables pt i)) 1) (cleared s pt i) run,
)

-- The outcome at an entry that is present.
abbrev pub UnmapOutcome : Vmm → (pml4 virt frame : ℕ) → Run Vmm ℕ → Type 0
UnmapOutcome s pml4 virt frame r =
    (frame ≤ s.pmm.bitmap_size)
      × ((s' : Vmm) × (r ≡ ok (frame * page_size) s') × Unmapped s pml4 virt frame s')
    ⊎ (s.pmm.bitmap_size < frame) × (r ≡ panicked)

unmap_at-Outcome :
    (s : Vmm) (level : ℕ → ℕ) (pml4 virt pt : ℕ)
    → IsPaged s level
    → level pml4 ≡ 4
    → walk s 3 pml4 virt ≡ some pt
    → present (s.tables pt (index 0 virt)) ≡ true
    → UnmapOutcome s pml4 virt (address (s.tables pt (index 0 virt))) (unmap_at pt (index 0 virt) s)
unfolding virt2phys page_at walk
unmap_at-Outcome s level pml4 virt pt paged top ends on =
    let i : ℕ = index 0 virt in
    let raw : ℕ = s.tables pt i in
    let leaf : level pt ≡ 1 = walk-level s level 3 pml4 virt pt paged top ends in
    elim (pmm_release_frames-Released s.pmm (address raw) 1 (omega (arith, address_bound raw))) [
      | inl (fits, (p, run, released)) ↦ inl (
        fits,
        (
          record (cleared s pt i) { pmm = p },
          unmap_at-on s pt i p on run,
          record {
            here = λ w e.
                translation-off s level pml4 pt virt (raw - 1) paged top leaf ends w e
                  (present-off raw on);
            elsewhere = λ w ne.
                translation-elsewhere s level pml4 pt virt (raw - 1) paged top leaf ends w ne;
            bits = released.bits;
          },
        ),
      )
      | inr (big, run) ↦ inr (big, unmap_at-panicked s pt i on run)
    ]

unmap_page-ends :
    (s : Vmm) (pml4 virt pt : ℕ)
    → walk s 3 pml4 virt ≡ some pt
    → vmm_unmap_page pml4 virt s ≡ unmap_at pt (index 0 virt) s
unfolding vmm_unmap_page
unmap_page-ends s pml4 virt pt ends = rw (vmm_unmap_page, ends)

unmap_page-missing :
    (s : Vmm) (pml4 virt : ℕ) → walk s 3 pml4 virt ≡ none → vmm_unmap_page pml4 virt s ≡ ok 0 s
unfolding vmm_unmap_page
unmap_page-missing s pml4 virt missing = rw (vmm_unmap_page, missing)

unmap_at-absent : (s : Vmm) (pt i : ℕ) → present (s.tables pt i) ≡ false → unmap_at pt i s ≡ ok 0 s
unfolding unmap_at
unmap_at-absent s pt i off = rw (unmap_at, off)

-- `vmm_unmapPage` on tables with their shape. Where `virt` is not mapped it returns the null pointer
-- and changes nothing. Where it is mapped and the number of its frame is at most the number of words
-- of the frame bitmap, it returns the address that `virt2phys` gave, unmaps the page and no other,
-- and frees its frame and no other. Where the number of the frame is greater, it panics.
pub vmm_unmap_page-Unmapped :
    (s : Vmm) (level : ℕ → ℕ) (pml4 virt : ℕ)
    → IsPaged s level
    → level pml4 ≡ 4
    → (vmm_unmap_page pml4 virt s ≡ ok 0 s) × (virt2phys pml4 virt s ≡ 0)
      ⊎ (frame : ℕ) × (virt2phys pml4 virt s ≡ frame * page_size)
        × UnmapOutcome s pml4 virt frame (vmm_unmap_page pml4 virt s)
unfolding virt2phys page_at
vmm_unmap_page-Unmapped s level pml4 virt paged top = elim (Option-cases (walk s 3 pml4 virt)) [
  | inl missing ↦ inl (unmap_page-missing s pml4 virt missing, rw missing)
  | inr (pt, ends) ↦
      let run = unmap_page-ends s pml4 virt pt ends in
      elim (Bool-cases (present (s.tables pt (index 0 virt)))) [
        | inl on ↦ inr (
          address (s.tables pt (index 0 virt)),
          rw (ends, on),
          subst (UnmapOutcome s pml4 virt (address (s.tables pt (index 0 virt)))) (sym run)
              (unmap_at-Outcome s level pml4 virt pt paged top ends on),
        )
        | inr off ↦ inl (run ∙ unmap_at-absent s pt (index 0 virt) off, rw (ends, off))
      ]
]
