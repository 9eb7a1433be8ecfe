-- ===== src/Vmm/Map.antt =====
-- `vmm_mapPage` and `virt2phys` of kernel/src/mem/vmm.c.
use omega_os.Base.{
  ℕ, zero, suc, ◌*◌, ◌/◌, ◌%◌, ◌^◌, ◌≡◌, ◌≢◌, refl, Bool, true, false, none, some, arith, ◌⊎◌, inl,
  inr, sym, ap, ◌∙◌, Bool-cases, Option-cases,
}
use omega_os.Base.Run.{ok, panicked}
use omega_os.Pmm.{page_size, rnd_down}
use omega_os.Pmm.Bits.{used}
use omega_os.Vmm.{
  Vmm, present, target, index, set_entry, write_entry, walk, page_at, virt2phys, vmm_map_page,
  lock_acquire, lock_release,
}
use omega_os.Vmm.Entry.{
  page, index_page, index_bound, address-set_entry, present-set_entry, same_page,
}
use omega_os.Vmm.Paged.{IsPaged}
use omega_os.Vmm.Walk.{walk-present, walk-absent, walk-index, walk-single}
use omega_os.Vmm.Create.{write_at, write_other}
use omega_os.Vmm.Descend.{Grown, OutOfFrames, descend-Descended}

-- Entry `i` of the page table `pt` is written.
abbrev pub written : Vmm → (pt i raw : ℕ) → Vmm
written s pt i raw = record s { tables = write_entry s.tables pt i raw }

module _ (s : Vmm) (level : ℕ → ℕ) (pt i raw : ℕ) (paged : IsPaged s level)
    (leaf : level pt ≡ 1) where
  above_same : (u n j : ℕ) → level u ≡ suc (suc n) → (written s pt i raw).tables u j ≡ s.tables u j
  above_same u n j lu =
      write_other s.tables pt i raw u j (λ (e, _). absurd (omega (arith, ap level e, lu, leaf)))

  -- The walk does not depend on the entries of page tables.
  walk-written :
      (n u virt : ℕ) → level u ≡ suc n → walk (written s pt i raw) n u virt ≡ walk s n u virt
  unfolding walk
  walk-written zero u virt lu = refl
  walk-written (suc n) u virt lu =
      let j : ℕ = index (suc n) virt in
      let w : Vmm = written s pt i raw in
      let e : w.tables u j ≡ s.tables u j = above_same u n j lu in
      elim (Bool-cases (present (s.tables u j))) [
        | inl on ↦
            walk-present w n u virt (ap present e ∙ on)
            ∙ ap (λ a. walk w n (target a) virt) e
            ∙ walk-written n (target (s.tables u j)) virt
                (paged.entries u n j lu (index_bound (suc n) virt) on)
            ∙ sym (walk-present s n u virt on)
        | inr off ↦ walk-absent w n u virt (ap present e ∙ off) ∙ sym (walk-absent s n u virt off)
      ]

  pub written-IsPaged : IsPaged (written s pt i raw) level
  written-IsPaged = record {
    pmm_lock = paged.pmm_lock;
    small = paged.small;
    frames = paged.frames;
    entries = λ u m j lu b on.
        let e : (written s pt i raw).tables u j ≡ s.tables u j = above_same u m j lu in
        ap (λ a. level (target a)) e ∙ paged.entries u m j lu b (ap present (sym e) ∙ on);
    single = λ u v m j k lu lv bj bk onj onk same.
        let eu : (written s pt i raw).tables u j ≡ s.tables u j = above_same u m j lu in
        let ev : (written s pt i raw).tables v k ≡ s.tables v k = above_same v m k lv in
        paged.single u v m j k lu lv bj bk (ap present (sym eu) ∙ onj) (ap present (sym ev) ∙ onk)
          (ap target (sym eu) ∙ same ∙ ap target ev);
  }

-- What `vmm_mapPage` has done when it returns: the tables have their shape, the lock is free, every
-- address of the page is translated to the frame, and every other address as before.
pub record Mapped (s : Vmm) (level : ℕ → ℕ) (pml4 phys virt : ℕ) (s' : Vmm) : Type 0 where
  pub level' : ℕ → ℕ
  pub paged : IsPaged s' level'
  pub kept : (u : ℕ) → level u ≢ 0 → level' u ≡ level u
  pub lock : s'.lock ≡ false
  pub here : (w : ℕ) → page w ≡ page virt → virt2phys pml4 w s' ≡ phys / 2 ^ 12 % 2 ^ 40 * 2 ^ 12
  pub elsewhere : (w : ℕ) → page w ≢ page virt → virt2phys pml4 w s' ≡ virt2phys pml4 w s
  pub frames : (f : ℕ) → used s.pmm f ≡ true → used s'.pmm f ≡ true

module _ (s : Vmm) (level : ℕ → ℕ) (pml4 pt virt raw : ℕ) (paged : IsPaged s level)
    (top : level pml4 ≡ 4) (leaf : level pt ≡ 1) (end : walk s 3 pml4 virt ≡ some pt) where
  abbrev pub done : Vmm
  done = written s pt (index 0 virt) raw

  walk-done : (w : ℕ) → walk done 3 pml4 w ≡ walk s 3 pml4 w
  walk-done w = walk-written s level pt (index 0 virt) raw paged leaf 3 pml4 w top

  at_page :
      (w : ℕ)
      → page w ≡ page virt
      → (walk done 3 pml4 w ≡ some pt) × (done.tables pt (index 0 w) ≡ raw)
  at_page w e =
      let at : index 0 w ≡ index 0 virt = index_page w virt 0 e (omega arith) in
      (
        walk-done w ∙ walk-index s 3 pml4 w virt (λ k low high. index_page w virt k e high) ∙ end,
        ap (done.tables pt) at ∙ write_at s.tables pt (index 0 virt) raw,
      )

  translation-here :
      (w : ℕ) → page w ≡ page virt → present raw ≡ true → virt2phys pml4 w done ≡ target raw
  unfolding virt2phys page_at
  translation-here w e on = let (ends, entry) = at_page w e in rw (ends, entry, on)

  pub translation-off :
      (w : ℕ) → page w ≡ page virt → present raw ≡ false → virt2phys pml4 w done ≡ 0
  unfolding virt2phys page_at
  translation-off w e off = let (ends, entry) = at_page w e in rw (ends, entry, off)

  page-elsewhere :
      (w q : ℕ)
      → page w ≢ page virt
      → walk s 3 pml4 w ≡ some q
      → done.tables q (index 0 w) ≡ s.tables q (index 0 w)
  page-elsewhere w q ne ends = write_other s.tables pt (index 0 virt) raw q (index 0 w) (λ (eq, e0).
      let ends' : walk s 3 pml4 w ≡ some pt = ends ∙ ap some eq in
      let (same, _) =
        walk-single s level 3 pml4 pml4 w virt pt paged (omega arith) top top ends' end in
      ne (
        same_page w virt (same 3 (omega arith) (omega arith)) (same 2 (omega arith) (omega arith))
          (same 1 (omega arith) (omega arith)) e0))

  pub translation-elsewhere :
      (w : ℕ) → page w ≢ page virt → virt2phys pml4 w done ≡ virt2phys pml4 w s
  unfolding virt2phys page_at
  translation-elsewhere w ne = elim (Option-cases (walk s 3 pml4 w)) [
    | inl missing ↦ rw (walk-done w, missing)
    | inr (q, ends) ↦
        let e : done.tables q (index 0 w) ≡ s.tables q (index 0 w) = page-elsewhere w q ne ends in
        rw (walk-done w, ends, e)
  ]

IsPaged-lock :
    (s : Vmm) (level : ℕ → ℕ) (b : Bool) → IsPaged s level → IsPaged (record s { lock = b }) level
IsPaged-lock s level b paged = record {
  pmm_lock = paged.pmm_lock;
  small = paged.small;
  frames = paged.frames;
  entries = paged.entries;
  single = paged.single;
}

target-set_entry :
    (raw addr attr : ℕ)
    → target (set_entry raw (addr / 2 ^ 12) attr) ≡ addr / 2 ^ 12 % 2 ^ 40 * 2 ^ 12
target-set_entry raw addr attr = ap (λ a. a * 2 ^ 12) (address-set_entry raw (addr / 2 ^ 12) attr)

Grown-Mapped :
    (s s' : Vmm) (level level' : ℕ → ℕ) (pml4 phys virt attr pt : ℕ)
    → level pml4 ≡ 4
    → present attr ≡ true
    → Grown (record s { lock = true }) level s' level'
    → level' pt ≡ 1
    → walk s' 3 pml4 virt ≡ some pt
    → let raw = set_entry (s'.tables pt (index 0 virt)) (phys / 2 ^ 12) attr in
      Mapped s level pml4 phys virt (record (written s' pt (index 0 virt) raw) { lock = false })
unfolding virt2phys walk page_at
Grown-Mapped s s' level level' pml4 phys virt attr pt top on g leaf ends =
    let raw : ℕ = set_entry (s'.tables pt (index 0 virt)) (phys / 2 ^ 12) attr in
    let set : present raw ≡ true =
      present-set_entry (s'.tables pt (index 0 virt)) (phys / 2 ^ 12) attr ∙ on in
    let top' : level' pml4 ≡ 4 = g.kept pml4 (λ z. absurd (omega (arith, top, z))) ∙ top in
    record {
      level' = level';
      paged =
          IsPaged-lock (written s' pt (index 0 virt) raw) level' false
            (written-IsPaged s' level' pt (index 0 virt) raw g.paged leaf);
      kept = g.kept;
      lock = refl;
      here = λ w e.
          translation-here s' level' pml4 pt virt raw g.paged top' leaf ends w e set
          ∙ target-set_entry (s'.tables pt (index 0 virt)) phys attr;
      elsewhere = λ w ne.
          translation-elsewhere s' level' pml4 pt virt raw g.paged top' leaf ends w ne
          ∙ g.translations 3 pml4 w top;
      frames = g.frames;
    }

-- `vmm_mapPage`, with a present attribute and no lock held, on tables with their shape: either it
-- panics, a table on the way is missing, and the physical memory manager has returned the null
-- pointer, or it returns. Then every address of the page that `RNDWN` makes of `virt` is translated
-- to the frame of `phys`, every other address is translated as before, the tables keep their shape,
-- the lock is released, and no frame is given back.
pub vmm_map_page-Mapped :
    (s : Vmm) (level : ℕ → ℕ) (pml4 phys virt attr : ℕ)
    → IsPaged s level
    → s.lock ≡ false
    → level pml4 ≡ 4
    → present attr ≡ true
    → (vmm_map_page pml4 phys virt attr s ≡ panicked)
        × OutOfFrames (record s { lock = true }) level
        × (walk s 3 pml4 (rnd_down virt page_size) ≡ none)
      ⊎ (s' : Vmm) × (vmm_map_page pml4 phys virt attr s ≡ ok tt s')
        × Mapped s level pml4 phys (rnd_down virt page_size) s'
unfolding vmm_map_page lock_acquire lock_release walk
vmm_map_page-Mapped s level pml4 phys virt attr paged unlocked top on =
    let v : ℕ = rnd_down virt page_size in
    let held : Vmm = record s { lock = true } in
    elim (descend-Descended held level 3 pml4 v attr (IsPaged-lock s level true paged) top on) [
      | inl (stops, out, missing) ↦ inl (rw (unlocked, stops), out, missing)
      | inr (pt, s', level', run, g, leaf, ends) ↦
          let raw : ℕ = set_entry (s'.tables pt (index 0 v)) (phys / 2 ^ 12) attr in
          inr (
            record (written s' pt (index 0 v) raw) { lock = false },
            rw (unlocked, run),
            Grown-Mapped s s' level level' pml4 phys v attr pt top on g leaf ends,
          )
    ]
