-- ===== src/Vmm/Identity.antt =====
-- The loops of `vmm_init` in kernel/src/mem/vmm.c map pages to themselves.
use omega_os.Base.{
  ℕ, zero, suc, ◌+◌, ◌*◌, ◌^◌, ◌≤◌, ◌<◌, ◌≡◌, ◌⊎◌, inl, inr, refl, sym, ap, ◌∙◌, subst, true, false,
  arith, add64, ℕ_discrete,
}
use omega_os.Base.Run.{Run, ok, panicked, and_then}
use omega_os.Pmm.{page_size, rnd_down}
use omega_os.Vmm.{Vmm, present, virt2phys, vmm_map_page, vmm_identity_map_page}
use omega_os.Vmm.Entry.{page}
use omega_os.Vmm.Paged.{IsPaged}
use omega_os.Vmm.Descend.{OutOfFrames}
use omega_os.Vmm.Map.{Mapped, vmm_map_page-Mapped}
use omega_os.Vmm.Boot.{map_range}

-- The pages from number `k` on are translated to themselves, and the others as before.
pub record IdentityMapped (s : Vmm) (pml4 k n : ℕ) (s' : Vmm) : Type 0 where
  pub level : ℕ → ℕ
  pub paged : IsPaged s' level
  pub lock : s'.lock ≡ false
  pub top : level pml4 ≡ 4
  pub here : (w : ℕ) → k ≤ page w → page w < k + n → virt2phys pml4 w s' ≡ page w * page_size
  pub elsewhere :
      (w : ℕ) → (page w < k) ⊎ (k + n ≤ page w) → virt2phys pml4 w s' ≡ virt2phys pml4 w s

aligned : (k : ℕ) → k < 2 ^ 36 → rnd_down (k * page_size) page_size ≡ k * page_size
unfolding rnd_down
aligned k h = omega (arith, h)

page-aligned : (k : ℕ) → k < 2 ^ 36 → page (k * page_size) ≡ k
page-aligned k h = omega (arith, h)

-- The first page, then the others.
first_then :
    (s s1 s2 : Vmm) (level : ℕ → ℕ) (pml4 k n : ℕ)
    → k < 2 ^ 36
    → Mapped s level pml4 (k * page_size) (k * page_size) s1
    → IdentityMapped s1 pml4 (k + 1) n s2
    → IdentityMapped s pml4 k (suc n) s2
first_then s s1 s2 level pml4 k n small m r = record {
  level = r.level;
  paged = r.paged;
  lock = r.lock;
  top = r.top;
  here = λ w low high. elim (ℕ_discrete (page w) k) [
    | yes e ↦
        r.elsewhere w (inl (omega (arith, e)))
        ∙ m.here w (e ∙ sym (page-aligned k small))
        ∙ omega (arith, small, e)
    | no ne ↦ r.here w (omega (arith, low, ne)) (omega (arith, high))
  ];
  elsewhere = λ w out.
      r.elsewhere w (ground (arith, out))
      ∙ m.elsewhere w
          (λ e. let at : page w ≡ k = e ∙ page-aligned k small in ground (arith, out, at));
}

no_page :
    (s : Vmm) (level : ℕ → ℕ) (pml4 k : ℕ)
    → IsPaged s level
    → s.lock ≡ false
    → level pml4 ≡ 4
    → IdentityMapped s pml4 k 0 s
no_page s level pml4 k paged unlocked top = record {
  level = level;
  paged = paged;
  lock = unlocked;
  top = top;
  here = λ w low high. absurd (omega (arith, low, high));
  elsewhere = λ w out. refl;
}

-- The loop has panicked after some pages, where the physical memory manager has returned the null
-- pointer.
pub record Stopped (s : Vmm) (pml4 k n : ℕ) : Type 0 where
  pub rounds : ℕ
  pub before_end : rounds < n
  pub state : Vmm
  pub so_far : IdentityMapped s pml4 k rounds state
  pub out : OutOfFrames (record state { lock = true }) so_far.level

-- The outcome of the loop.
abbrev pub RangeOutcome : Vmm → (pml4 k n : ℕ) → Run Vmm (Unit {0}) → Type 0
RangeOutcome s pml4 k n r =
    (r ≡ panicked) × Stopped s pml4 k n ⊎ (s' : Vmm) × (r ≡ ok tt s') × IdentityMapped s pml4 k n s'

-- The run of the first round.
first_round :
    (s : Vmm) (pml4 k n : ℕ) (attr : ℕ → ℕ)
    → k + 1 < 2 ^ 36
    → map_range pml4 attr (suc n) (k * page_size) s
      ≡ and_then
          (vmm_map_page pml4 (k * page_size) (k * page_size) (attr (k * page_size)) s)
          (λ _. map_range pml4 attr n ((k + 1) * page_size))
unfolding map_range vmm_identity_map_page
first_round s pml4 k n attr small =
    let next : add64 (k * page_size) page_size ≡ (k + 1) * page_size = omega (arith, small) in
    ap
      (λ a.
        and_then (vmm_map_page pml4 (k * page_size) (k * page_size) (attr (k * page_size)) s)
          (λ _. map_range pml4 attr n a))
      next

-- The outcome of the other rounds, after the first.
later_rounds :
    (s s1 : Vmm) (level : ℕ → ℕ) (pml4 k n : ℕ) (r : Run Vmm (Unit {0}))
    → k < 2 ^ 36
    → Mapped s level pml4 (k * page_size) (k * page_size) s1
    → RangeOutcome s1 pml4 (k + 1) n r
    → RangeOutcome s pml4 k (suc n) r
unfolding first_then
later_rounds s s1 level pml4 k n r small m (inl (stops, st)) = inl (
  stops,
  record {
    rounds = suc st.rounds;
    before_end = omega (arith, st.before_end);
    state = st.state;
    so_far = first_then s s1 st.state level pml4 k st.rounds small m st.so_far;
    out = st.out;
  },
)
later_rounds s s1 level pml4 k n r small m (inr (s', run, i)) =
    inr (s', run, first_then s s1 s' level pml4 k n small m i)

-- The loops of `vmm_init` over `n` pages from an aligned address, with present attributes: each of
-- these pages is translated to itself and all others as before, or the loop panics after some pages,
-- since the physical memory manager has returned the null pointer.
pub map_range-IdentityMapped :
    (s : Vmm) (level : ℕ → ℕ) (pml4 : ℕ) (attr : ℕ → ℕ) (n k : ℕ)
    → IsPaged s level
    → s.lock ≡ false
    → level pml4 ≡ 4
    → ((a : ℕ) → present (attr a) ≡ true)
    → k + n < 2 ^ 36
    → RangeOutcome s pml4 k n (map_range pml4 attr n (k * page_size) s)
unfolding map_range no_page
map_range-IdentityMapped s level pml4 attr zero k paged unlocked top on small =
    inr (s, refl, no_page s level pml4 k paged unlocked top)
map_range-IdentityMapped s level pml4 attr (suc n) k paged unlocked top on small =
    let aligned_here : rnd_down (k * page_size) page_size ≡ k * page_size =
      aligned k (omega (arith, small)) in
    let run = first_round s pml4 k n attr (omega (arith, small)) in
    elim (vmm_map_page-Mapped s level pml4 (k * page_size) (k * page_size) (attr (k * page_size))
      paged unlocked top (on (k * page_size))) [
        | inl (stops, out, _) ↦ inl (
          run ∙ ap (λ r. and_then r (λ _. map_range pml4 attr n ((k + 1) * page_size))) stops,
          record {
            rounds = 0;
            before_end = omega arith;
            state = s;
            so_far = no_page s level pml4 k paged unlocked top;
            out = out;
          },
        )
        | inr (s1, maps, m0) ↦
            let m : Mapped s level pml4 (k * page_size) (k * page_size) s1 =
              subst (λ v. Mapped s level pml4 (k * page_size) v s1) aligned_here m0 in
            let top1 : m.level' pml4 ≡ 4 =
              m.kept pml4 (λ z. absurd (omega (arith, top, z))) ∙ top in
            let rest =
              map_range-IdentityMapped s1 m.level' pml4 attr n (k + 1) m.paged m.lock top1 on
                (omega (arith, small)) in
            subst (RangeOutcome s pml4 k (suc n))
              (sym (
                run ∙ ap (λ r. and_then r (λ _. map_range pml4 attr n ((k + 1) * page_size))) maps))
              (later_rounds s s1 level pml4 k n (map_range pml4 attr n ((k + 1) * page_size) s1)
                (omega (arith, small)) m rest)
      ]
