-- ===== src/Vmm/Walk.antt =====
-- The walk of `virt2phys` in kernel/src/mem/vmm.c, one level at a time, and which entries it meets.
use omega_os.Base.{
  ℕ, zero, suc, ◌≤◌, ◌≡◌, ◌≢◌, refl, sym, ap, ◌∙◌, true, false, none, some, arith, inl, inr,
  Bool-cases, ℕ_discrete,
}
use omega_os.Vmm.Entry.{index_bound}
use omega_os.Vmm.{Vmm, present, target, index, walk, page_at}
use omega_os.Vmm.Paged.{IsPaged, translation}

module _ (s : Vmm) (n u virt : ℕ) where
  pub walk-absent : present (s.tables u (index (suc n) virt)) ≡ false → walk s (suc n) u virt ≡ none
  unfolding walk
  walk-absent e = rw (walk, e)

  pub walk-present :
      present (s.tables u (index (suc n) virt)) ≡ true
      → walk s (suc n) u virt ≡ walk s n (target (s.tables u (index (suc n) virt))) virt
  unfolding walk
  walk-present e = rw (walk, e)

  pub translation-absent :
      present (s.tables u (index (suc n) virt)) ≡ false → translation s (suc n) u virt ≡ 0
  unfolding page_at
  translation-absent e = ap (page_at s virt) (walk-absent e)

  pub translation-present :
      present (s.tables u (index (suc n) virt)) ≡ true
      → translation s (suc n) u virt
        ≡ translation s n (target (s.tables u (index (suc n) virt))) virt
  translation-present e = ap (page_at s virt) (walk-present e)

-- The walk reads of the address only its indices.
pub walk-index :
    (s : Vmm) (n u v w : ℕ)
    → ((k : ℕ) → 1 ≤ k → k ≤ n → index k v ≡ index k w)
    → walk s n u v ≡ walk s n u w
unfolding walk
walk-index s zero u v w same = refl
walk-index s (suc n) u v w same =
    let e : index (suc n) v ≡ index (suc n) w = same (suc n) (omega arith) (omega arith) in
    elim (Bool-cases (present (s.tables u (index (suc n) v)))) [
      | inl on ↦
          walk-present s n u v on
          ∙ ap (λ j. walk s n (target (s.tables u j)) v) e
          ∙ walk-index s n (target (s.tables u (index (suc n) w))) v w
              (λ k a b. same k a (omega (arith, b)))
          ∙ sym (walk-present s n u w (ap (λ j. present (s.tables u j)) (sym e) ∙ on))
      | inr off ↦
          walk-absent s n u v off
          ∙ sym (walk-absent s n u w (ap (λ j. present (s.tables u j)) (sym e) ∙ off))
    ]

-- A walk that ends at a table has met a present entry, and goes on from its target.
pub walk-some :
    (s : Vmm) (n u v pt : ℕ)
    → walk s (suc n) u v ≡ some pt
    → (present (s.tables u (index (suc n) v)) ≡ true)
      × (walk s n (target (s.tables u (index (suc n) v))) v ≡ some pt)
walk-some s n u v pt e = elim (Bool-cases (present (s.tables u (index (suc n) v)))) [
  | inl on ↦ (on, sym (walk-present s n u v on) ∙ e)
  | inr off ↦ let bad : none ≡ some pt = sym (walk-absent s n u v off) ∙ e in cc
]

some-injective : {x y : ℕ} → some x ≡ some y → x ≡ y
some-injective e = cc

add_top_index :
    (n a b : ℕ)
    → index (suc n) a ≡ index (suc n) b
    → ((k : ℕ) → 1 ≤ k → k ≤ n → index k a ≡ index k b)
    → (k : ℕ) → 1 ≤ k
    → k ≤ suc n
    → index k a ≡ index k b
add_top_index n a b top below k low high = elim (ℕ_discrete k (suc n)) [
  | yes e ↦ ap (λ m. index m a) e ∙ top ∙ ap (λ m. index m b) (sym e)
  | no ne ↦ below k low (omega (arith, high, ne))
]

-- Two walks from the top that end at the same page table have the same indices on the way.
pub walk-single :
    (s : Vmm) (level : ℕ → ℕ) (n u v a b pt : ℕ)
    → IsPaged s level
    → n ≤ 3
    → level u ≡ suc n
    → level v ≡ suc n
    → walk s n u a ≡ some pt
    → walk s n v b ≡ some pt
    → ((k : ℕ) → 1 ≤ k → k ≤ n → index k a ≡ index k b) × (suc n ≢ 4 → u ≡ v)
unfolding walk
walk-single s level zero u v a b pt paged few lu lv wa wb =
    (λ k low high. absurd (omega (arith, low, high)), λ _. some-injective (wa ∙ sym wb))
walk-single s level (suc n) u v a b pt paged few lu lv wa wb =
    let i : ℕ = index (suc n) a in
    let j : ℕ = index (suc n) b in
    let (ona, wa') = walk-some s n u a pt wa in
    let (onb, wb') = walk-some s n v b pt wb in
    let bi = index_bound (suc n) a in
    let bj = index_bound (suc n) b in
    let (below, same) =
      walk-single s level n (target (s.tables u i)) (target (s.tables v j)) a b pt paged
        (omega (arith, few)) (paged.entries u n i lu bi ona) (paged.entries v n j lv bj onb) wa'
        wb' in
    let (e, tables) =
      paged.single u v n i j lu lv bi bj ona onb (same (λ z. absurd (omega (arith, few, z)))) in
    (add_top_index n a b e below, tables)

pub walk-level :
    (s : Vmm) (level : ℕ → ℕ) (n u v pt : ℕ)
    → IsPaged s level
    → level u ≡ suc n
    → walk s n u v ≡ some pt
    → level pt ≡ 1
unfolding walk
walk-level s level zero u v pt paged lu e = ap level (some-injective (sym e)) ∙ lu
walk-level s level (suc n) u v pt paged lu e =
    let (on, rest) = walk-some s n u v pt e in
    walk-level s level n (target (s.tables u (index (suc n) v))) v pt paged
      (paged.entries u n (index (suc n) v) lu (index_bound (suc n) v) on) rest
