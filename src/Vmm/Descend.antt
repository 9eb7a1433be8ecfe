-- ===== src/Vmm/Descend.antt =====
-- The steps of `vmm_mapPage` in kernel/src/mem/vmm.c down to the page table.
use omega_os.Base.{
  ℕ, zero, suc, ◌<◌, ◌≡◌, ◌≢◌, refl, true, false, none, some, arith, ◌⊎◌, inl, inr, sym, ap, ap₂,
  put, put_at, ◌∙◌, subst, Bool-cases, Option-cases,
}
use omega_os.Base.Run.{Run, ok, panicked}
use omega_os.Pmm.{Pmm, pmm_get_frames}
use omega_os.Pmm.Bits.{used}
use omega_os.Vmm.{Vmm, present, target, index, walk, create_entry, next_table, descend}
use omega_os.Vmm.Entry.{index_bound}
use omega_os.Vmm.Paged.{IsPaged, translation}
use omega_os.Vmm.Walk.{walk-present, walk-absent, walk-some}
use omega_os.Vmm.Create.{Created, create_entry-Created}
use omega_os.Vmm.Grow.{kept_grown, grown-IsPaged, translation-grown}

-- Tables were added: the old ones keep their levels, their present entries and all translations, and
-- frames in use stay in use.
pub record Grown (s : Vmm) (level : ℕ → ℕ) (s' : Vmm) (level' : ℕ → ℕ) : Type 0 where
  pub paged : IsPaged s' level'
  pub kept : (u : ℕ) → level u ≢ 0 → level' u ≡ level u
  pub entries :
      (u j : ℕ) → level u ≢ 0 → present (s.tables u j) ≡ true → s'.tables u j ≡ s.tables u j
  pub translations :
      (n u virt : ℕ) → level u ≡ suc n → translation s' n u virt ≡ translation s n u virt
  pub frames : (f : ℕ) → used s.pmm f ≡ true → used s'.pmm f ≡ true
  pub lock : s'.lock ≡ s.lock

Grown-refl : (s : Vmm) (level : ℕ → ℕ) → IsPaged s level → Grown s level s level
Grown-refl s level paged = record {
  paged = paged;
  kept = λ u table. refl;
  entries = λ u j table on. refl;
  translations = λ n u virt lu. refl;
  frames = λ f taken. taken;
  lock = refl;
}

level_kept :
    (s s' : Vmm) (level level' : ℕ → ℕ) (u n : ℕ)
    → Grown s level s' level'
    → level u ≡ suc n
    → level' u ≡ suc n
level_kept s s' level level' u n g lu = g.kept u (λ z. absurd (omega (arith, lu, z))) ∙ lu

Grown-trans :
    (s s' s'' : Vmm) (level level' level'' : ℕ → ℕ)
    → Grown s level s' level'
    → Grown s' level' s'' level''
    → Grown s level s'' level''
Grown-trans s s' s'' level level' level'' g h = record {
  paged = h.paged;
  kept = λ u table. h.kept u (λ z. table (sym (g.kept u table) ∙ z)) ∙ g.kept u table;
  entries = λ u j table on.
      h.entries u j (λ z. table (sym (g.kept u table) ∙ z))
        (ap present (g.entries u j table on) ∙ on)
      ∙ g.entries u j table on;
  translations = λ n u virt lu.
      h.translations n u virt (level_kept s s' level level' u n g lu) ∙ g.translations n u virt lu;
  frames = λ f taken. h.frames f (g.frames f taken);
  lock = h.lock ∙ g.lock;
}

-- In a state that is reached by adding tables, the physical memory manager has returned the null
-- pointer.
pub record OutOfFrames (s : Vmm) (level : ℕ → ℕ) : Type 0 where
  pub state : Vmm
  pub levels : ℕ → ℕ
  pub reached : Grown s level state levels
  pub after : Pmm
  pub null : pmm_get_frames 1 state.pmm ≡ ok 0 after

-- A walk that ends at a page table still does.
walk-Grown :
    (s s' : Vmm) (level level' : ℕ → ℕ) (n u virt pt : ℕ)
    → IsPaged s level
    → Grown s level s' level'
    → level u ≡ suc n
    → walk s n u virt ≡ some pt
    → walk s' n u virt ≡ some pt
unfolding walk
walk-Grown s s' level level' zero u virt pt paged g lu e = e
walk-Grown s s' level level' (suc n) u virt pt paged g lu e =
    let i : ℕ = index (suc n) virt in
    let (on, rest) = walk-some s n u virt pt e in
    let same : s'.tables u i ≡ s.tables u i =
      g.entries u i (λ z. absurd (omega (arith, lu, z))) on in
    walk-present s' n u virt (ap present same ∙ on)
    ∙ ap (λ a. walk s' n (target a) virt) same
    ∙ walk-Grown s s' level level' n (target (s.tables u i)) virt pt paged g
        (paged.entries u n i lu (index_bound (suc n) virt) on) rest

-- The outcome of the step from `t` by entry `i` to a table of level `suc l`.
abbrev Stepped : Vmm → (ℕ → ℕ) → (t i l : ℕ) → Run Vmm ℕ → Type 0
Stepped s level t i l r =
    (r ≡ panicked) × OutOfFrames s level × (present (s.tables t i) ≡ false)
    ⊎ (next : ℕ) × (s' : Vmm) × (level' : ℕ → ℕ) × (r ≡ ok next s')
      × Grown s level s' level'
      × (level' next ≡ suc l)
      × (present (s'.tables t i) ≡ true)
      × (target (s'.tables t i) ≡ next)

module _ (s : Vmm) (level : ℕ → ℕ) (t i l attr : ℕ) (paged : IsPaged s level)
    (is : level t ≡ suc (suc l)) (inside : i < 512) where
  Created-Stepped :
      (new : ℕ) (s' : Vmm)
      → present (s.tables t i) ≡ false
      → Created s level t i new s'
      → Stepped s level t i l (ok new s')
  Created-Stepped new s' off c = inr (
    new,
    s',
    put level new (suc l),
    refl,
    record {
      paged = grown-IsPaged s s' level t i new l paged is inside off c;
      kept = kept_grown s s' level t i new l paged is inside off c;
      entries = λ u j table on. c.others u j table (λ (eu, ej).
          let bad : true ≡ false = sym on ∙ ap₂ (λ a b. present (s.tables a b)) eu ej ∙ off in cc);
      translations = translation-grown s s' level t i new l paged is inside off c;
      frames = c.kept;
      lock = c.lock;
    },
    put_at level new (suc l),
    c.entry_present,
    c.entry_target,
  )

  next_table-Stepped : present attr ≡ true → Stepped s level t i l (next_table t i attr s)
  unfolding next_table
  next_table-Stepped on = elim (Bool-cases (present (s.tables t i))) [
    | inl there ↦ inr (
      target (s.tables t i),
      s,
      level,
      rw (next_table, there),
      Grown-refl s level paged,
      paged.entries t l i is inside there,
      there,
      refl,
    )
    | inr off ↦
        let closed : next_table t i attr s ≡ create_entry t i attr s = rw (next_table, off) in
        elim (create_entry-Created s level t i attr paged (λ z. absurd (omega (arith, is, z))) on) [
          | inl (stops, (p, null)) ↦ inl (
            closed ∙ stops,
            record {
              state = s;
              levels = level;
              reached = Grown-refl s level paged;
              after = p;
              null = null;
            },
            off,
          )
          | inr (new, s', run, c) ↦
              subst (Stepped s level t i l) (sym (closed ∙ run)) (Created-Stepped new s' off c)
        ]
  ]

-- The outcome of the steps over `n` levels from `t`: a page table, at which the walk then ends.
abbrev pub Descended : Vmm → (ℕ → ℕ) → (n t virt : ℕ) → Run Vmm ℕ → Type 0
Descended s level n t virt r =
    (r ≡ panicked) × OutOfFrames s level × (walk s n t virt ≡ none)
    ⊎ (pt : ℕ) × (s' : Vmm) × (level' : ℕ → ℕ) × (r ≡ ok pt s')
      × Grown s level s' level'
      × (level' pt ≡ 1)
      × (walk s' n t virt ≡ some pt)

OutOfFrames-trans :
    (s s' : Vmm) (level level' : ℕ → ℕ)
    → Grown s level s' level'
    → OutOfFrames s' level'
    → OutOfFrames s level
OutOfFrames-trans s s' level level' g out = record {
  state = out.state;
  levels = out.levels;
  reached = Grown-trans s s' out.state level level' out.levels g out.reached;
  after = out.after;
  null = out.null;
}

missing_before :
    (s s' : Vmm) (level level' : ℕ → ℕ) (n t virt next : ℕ)
    → IsPaged s level
    → Grown s level s' level'
    → level t ≡ suc (suc n)
    → present (s'.tables t (index (suc n) virt)) ≡ true
    → target (s'.tables t (index (suc n) virt)) ≡ next
    → walk s' n next virt ≡ none
    → walk s (suc n) t virt ≡ none
missing_before s s' level level' n t virt next paged g is here to missing =
    elim (Option-cases (walk s (suc n) t virt)) [
      | inl gone ↦ gone
      | inr (pt, e) ↦
          let after : walk s' (suc n) t virt ≡ none =
            walk-present s' n t virt here ∙ ap (λ a. walk s' n a virt) to ∙ missing in
          let bad : none ≡ some pt =
            sym after ∙ walk-Grown s s' level level' (suc n) t virt pt paged g is e in
          cc
    ]

-- The steps end at a page table, or they panic at a table that is missing, since there is no frame.
pub descend-Descended :
    (s : Vmm) (level : ℕ → ℕ) (n t virt attr : ℕ)
    → IsPaged s level
    → level t ≡ suc n
    → present attr ≡ true
    → Descended s level n t virt (descend n t virt attr s)
unfolding descend walk
descend-Descended s level zero t virt attr paged is on =
    inr (t, s, level, refl, Grown-refl s level paged, is, refl)
descend-Descended s level (suc n) t virt attr paged is on =
    let i : ℕ = index (suc n) virt in
    elim (next_table-Stepped s level t i n attr paged is (index_bound (suc n) virt) on) [
      | inl (stops, out, off) ↦ inl (rw (descend, stops), out, walk-absent s n t virt off)
      | inr (next, s', level', run, g, ln, here, to) ↦
          elim (descend-Descended s' level' n next virt attr g.paged ln on) [
            | inl (stops, out, missing) ↦ inl (
              rw (descend, run) stops,
              OutOfFrames-trans s s' level level' g out,
              missing_before s s' level level' n t virt next paged g is here to missing,
            )
            | inr (pt, s'', level'', run', h, lpt, w) ↦
                let lt : level' t ≡ suc (suc n) = level_kept s s' level level' t (suc n) g is in
                let e : s''.tables t i ≡ s'.tables t i =
                  h.entries t i (λ z. absurd (omega (arith, lt, z))) here in
                inr (
                  pt,
                  s'',
                  level'',
                  rw (descend, run) run',
                  Grown-trans s s' s'' level level' level'' g h,
                  lpt,
                  walk-present s'' n t virt (ap present e ∙ here)
                      ∙ ap (λ a. walk s'' n a virt) (ap target e ∙ to)
                      ∙ w,
                )
          ]
    ]
