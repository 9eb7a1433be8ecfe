-- ===== src/Vmm/Grow.antt =====
-- A new table of kernel/src/mem/vmm.c keeps the shape of the tables and all translations.
use omega_os.Base.{
  ℕ, zero, suc, ◌*◌, ◌<◌, ◌≡◌, ◌≢◌, ap₂, true, false, arith, ◌⊎◌, inl, inr, ℕ_discrete, put, put_at,
  put_other, sym, ap, ◌∙◌, subst, Bool-cases,
}
use omega_os.Pmm.{page_size}
use omega_os.Pmm.Bits.{used}
use omega_os.Vmm.{Vmm, present, target, index, walk, page_at}
use omega_os.Vmm.Entry.{present-zero, index_bound}
use omega_os.Vmm.Paged.{IsPaged, translation}
use omega_os.Vmm.Walk.{translation-absent, translation-present}
use omega_os.Vmm.Create.{Created}

module _ (s s' : Vmm) (level : ℕ → ℕ) (t i new l : ℕ) (paged : IsPaged s level)
    (is : level t ≡ suc (suc l)) (inside : i < 512) (off : present (s.tables t i) ≡ false)
    (c : Created s level t i new s') where
  abbrev grown : ℕ → ℕ
  grown = put level new (suc l)

  new_grown : grown new ≡ suc l
  new_grown = put_at level new (suc l)

  -- A table keeps its level.
  pub kept_grown : (u : ℕ) → level u ≢ 0 → grown u ≡ level u
  kept_grown u table = put_other level new (suc l) u (λ e. table (ap level e ∙ c.fresh))

  -- Entry `j` of `u` is the new one, or it was present before the call.
  abbrev EntryCase : (u m j : ℕ) → Type 0
  EntryCase u m j =
      (u ≡ t) × (j ≡ i) × (m ≡ l) × (target (s'.tables u j) ≡ new)
      ⊎ (level u ≡ suc (suc m))
        × (present (s.tables u j) ≡ true)
        × (target (s'.tables u j) ≡ target (s.tables u j))

  old_entry :
      (u m j : ℕ)
      → level u ≡ suc (suc m)
      → present (s'.tables u j) ≡ true
      → ((u ≡ t) × (j ≡ i) → ⊥)
      → EntryCase u m j
  old_entry u m j lu on ne =
      let e : s'.tables u j ≡ s.tables u j = c.others u j (λ z. absurd (omega (arith, lu, z))) ne in
      inr (lu, ap present (sym e) ∙ on, ap target e)

  new_entry : (u m j : ℕ) → level u ≡ suc (suc m) → u ≡ t → j ≡ i → EntryCase u m j
  new_entry u m j lu eu ej =
      let lt : level u ≡ suc (suc l) = ap level eu ∙ is in
      inl
        (eu, ej, omega (arith, lu, lt), ap₂ (λ a b. target (s'.tables a b)) eu ej ∙ c.entry_target)

  entry_case :
      (u m j : ℕ) → grown u ≡ suc (suc m) → present (s'.tables u j) ≡ true → EntryCase u m j
  entry_case u m j lu on = elim (ℕ_discrete u new) [
    | yes e ↦
        let off : present (s'.tables u j) ≡ false =
          ap (λ a. present (s'.tables a j)) e ∙ ap present (c.blank j) ∙ present-zero in
        let bad : true ≡ false = sym on ∙ off in cc
    | no ne ↦
        let old : level u ≡ suc (suc m) = sym (put_other level new (suc l) u ne) ∙ lu in
        elim (ℕ_discrete u t) [
          | yes eu ↦ elim (ℕ_discrete j i) [
            | yes ej ↦ new_entry u m j old eu ej
            | no nj ↦ old_entry u m j old on (λ (_, e). nj e)
          ]
          | no nu ↦ old_entry u m j old on (λ (e, _). nu e)
        ]
  ]

  grown_entry : (u m j : ℕ) → j < 512 → EntryCase u m j → grown (target (s'.tables u j)) ≡ suc m
  grown_entry u m j b (inl (eu, ej, em, e)) = ap grown e ∙ new_grown ∙ ap suc (sym em)
  grown_entry u m j b (inr (lu, on, e)) =
      let below : level (target (s.tables u j)) ≡ suc m = paged.entries u m j lu b on in
      ap grown e
      ∙ kept_grown (target (s.tables u j)) (λ z. absurd (omega (arith, below, z)))
      ∙ below

  -- The target of an old entry is not the new table.
  not_new :
      (u m j n : ℕ)
      → j < 512
      → level u ≡ suc (suc m)
      → present (s.tables u j) ≡ true
      → n ≡ new
      → n ≡ target (s.tables u j)
      → ⊥
  not_new u m j n b lu on en et =
      let below : level (target (s.tables u j)) ≡ suc m = paged.entries u m j lu b on in
      let none_there : level (target (s.tables u j)) ≡ 0 = ap level (sym et ∙ en) ∙ c.fresh in
      omega (arith, below, none_there)

  grown_single :
      (u v m j k : ℕ)
      → j < 512
      → k < 512
      → target (s'.tables u j) ≡ target (s'.tables v k)
      → EntryCase u m j
      → EntryCase v m k
      → (j ≡ k) × (suc (suc m) ≢ 4 → u ≡ v)
  grown_single u v m j k bj bk same (inl (eu, ej, _, _)) (inl (ev, ek, _, _)) =
      (ej ∙ sym ek, λ _. eu ∙ sym ev)
  grown_single u v m j k bj bk same (inl (_, _, _, e)) (inr (lv, on, ev)) =
      absurd (not_new v m k (target (s'.tables u j)) bk lv on e (same ∙ ev))
  grown_single u v m j k bj bk same (inr (lu, on, eu)) (inl (_, _, _, e)) =
      absurd (not_new u m j (target (s'.tables v k)) bj lu on e (sym same ∙ eu))
  grown_single u v m j k bj bk same (inr (lu, onu, eu)) (inr (lv, onv, ev)) =
      paged.single u v m j k lu lv bj bk onu onv (sym eu ∙ same ∙ ev)

  grown_frames : (u : ℕ) → grown u ≢ 0 → (k : ℕ) × (u ≡ k * page_size) × (used s'.pmm k ≡ true)
  grown_frames u table = elim (ℕ_discrete u new) [
    | yes e ↦ let (k, ek, taken) = c.frame in (k, e ∙ ek, taken)
    | no ne ↦
        let (k, ek, taken) = paged.frames u (λ z. table (put_other level new (suc l) u ne ∙ z)) in
        (k, ek, c.kept k taken)
  ]

  pub grown-IsPaged : IsPaged s' grown
  grown-IsPaged = record {
    pmm_lock = c.pmm_lock;
    small = rw c.size paged.small;
    frames = grown_frames;
    entries = λ u m j lu b on. grown_entry u m j b (entry_case u m j lu on);
    single = λ u v m j k lu lv bj bk onj onk same.
        grown_single u v m j k bj bk same (entry_case u m j lu onj) (entry_case v m k lv onk);
  }

  walk_new : (n virt : ℕ) → translation s' n new virt ≡ 0
  unfolding walk page_at
  walk_new zero virt = rw (c.blank (index 0 virt), present-zero)
  walk_new (suc n) virt =
      translation-absent s' n new virt (ap present (c.blank (index (suc n) virt)) ∙ present-zero)

  translation_through :
      (n virt : ℕ)
      → index (suc n) virt ≡ i
      → translation s' (suc n) t virt ≡ translation s (suc n) t virt
  translation_through n virt e =
      let here : present (s'.tables t (index (suc n) virt)) ≡ true = rw e c.entry_present in
      translation-present s' n t virt here
      ∙ ap (λ a. translation s' n a virt) (ap (λ j. target (s'.tables t j)) e ∙ c.entry_target)
      ∙ walk_new n virt
      ∙ sym (translation-absent s n t virt (rw e off))

  -- Every translation from every table is as before.
  pub translation-grown :
      (n u virt : ℕ) → level u ≡ suc n → translation s' n u virt ≡ translation s n u virt
  unfolding walk page_at
  translation-grown zero u virt lu =
      let e : s'.tables u (index 0 virt) ≡ s.tables u (index 0 virt) =
        c.others u (index 0 virt) (λ z. absurd (omega (arith, lu, z)))
          (λ (z, _). absurd (omega (arith, lu, is, ap level z))) in
      rw e
  translation-grown (suc n) u virt lu =
      let j : ℕ = index (suc n) virt in
      let go : ((u ≡ t) × (j ≡ i) → ⊥)
          → translation s' (suc n) u virt ≡ translation s (suc n) u virt =
        λ ne.
          let e : s'.tables u j ≡ s.tables u j =
            c.others u j (λ z. absurd (omega (arith, lu, z))) ne in
          elim (Bool-cases (present (s.tables u j))) [
            | inl on ↦
                let below : level (target (s.tables u j)) ≡ suc n =
                  paged.entries u n j lu (index_bound (suc n) virt) on in
                translation-present s' n u virt (ap present e ∙ on)
                ∙ ap (λ a. translation s' n (target a) virt) e
                ∙ translation-grown n (target (s.tables u j)) virt below
                ∙ sym (translation-present s n u virt on)
            | inr off_before ↦
                translation-absent s' n u virt (ap present e ∙ off_before)
                ∙ sym (translation-absent s n u virt off_before)
          ] in
      elim (ℕ_discrete u t) [
        | yes eu ↦ elim (ℕ_discrete j i) [
          | yes ej ↦
              subst (λ a. translation s' (suc n) a virt ≡ translation s (suc n) a virt) (sym eu)
                (translation_through n virt ej)
          | no nj ↦ go (λ (_, z). nj z)
        ]
        | no nu ↦ go (λ (z, _). nu z)
      ]
