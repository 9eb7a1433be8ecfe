-- ===== src/Vmm/Create.antt =====
-- `createEntry` of kernel/src/mem/vmm.c: a new table, empty, one level below the one that points to it.
use omega_os.Base.{
  ℕ, ◌*◌, ◌/◌, ◌^◌, ◌≡◌, ◌≢◌, refl, Bool, true, false, arith, ◌==◌, if◌then◌else◌, ◌⊎◌, inl, inr,
  ℕ_discrete, ==_refl, sym, ap, ◌∙◌, subst,
}
use omega_os.Base.Run.{ok, panicked, Cmd}
use omega_os.Pmm.{Pmm, page_size, pmm_get_frame, pmm_get_frames}
use omega_os.Pmm.Bits.{used, in_run}
use omega_os.Pmm.Alloc.{pmm_get_frames-Allocated, Allocated}
use omega_os.Vmm.{Vmm, present, set_entry, write_entry, clear_table, on_pmm, create_entry, target}
use omega_os.Vmm.Entry.{address-set_entry, present-set_entry}
use omega_os.Vmm.Paged.{IsPaged}

-- The frame `new` was no table; it is now an empty one, to which entry `i` of `t` points, and no
-- other entry of a table has changed.
pub record Created (s : Vmm) (level : ℕ → ℕ) (t i new : ℕ) (s' : Vmm) : Type 0 where
  pub fresh : level new ≡ 0
  pub frame : (k : ℕ) × (new ≡ k * page_size) × (used s'.pmm k ≡ true)
  pub entry_target : target (s'.tables t i) ≡ new
  pub entry_present : present (s'.tables t i) ≡ true
  pub blank : (j : ℕ) → s'.tables new j ≡ 0
  pub others : (u j : ℕ) → level u ≢ 0 → ((u ≡ t) × (j ≡ i) → ⊥) → s'.tables u j ≡ s.tables u j
  pub kept : (f : ℕ) → used s.pmm f ≡ true → used s'.pmm f ≡ true
  pub pmm_lock : s'.pmm.lock ≡ false
  pub lock : s'.lock ≡ s.lock
  pub size : s'.pmm.bitmap_size ≡ s.pmm.bitmap_size

pub on_pmm-ok :
    {A : Type 0} (m : Cmd Pmm A) (s : Vmm) (a : A) (p : Pmm)
    → m s.pmm ≡ ok a p
    → on_pmm m s ≡ ok a (record s { pmm = p })
unfolding on_pmm
on_pmm-ok m s a p run = rw (on_pmm, run)

abbrev created : Vmm → Pmm → (t i new attr : ℕ) → Vmm
created s p t i new attr = record s {
  pmm = p;
  tables =
      write_entry (clear_table s.tables new) t i
        (set_entry (clear_table s.tables new t i) (new / 2 ^ 12) attr);
}

create_entry-panicked :
    (s : Vmm) (t i attr : ℕ) (p : Pmm)
    → pmm_get_frames 1 s.pmm ≡ ok 0 p
    → create_entry t i attr s ≡ panicked
unfolding create_entry pmm_get_frame
create_entry-panicked s t i attr p run = rw (on_pmm-ok (pmm_get_frames 1) s 0 p run)

create_entry-ok :
    (s : Vmm) (t i new attr : ℕ) (p : Pmm)
    → pmm_get_frames 1 s.pmm ≡ ok new p
    → new ≢ 0
    → create_entry t i attr s ≡ ok new (created s p t i new attr)
unfolding create_entry pmm_get_frame
create_entry-ok s t i new attr p run nz =
    let e : (new == 0) ≡ false = ground (arith, nz) in
    rw (on_pmm-ok (pmm_get_frames 1) s new p run, e)

pub write_at : (m : ℕ → ℕ → ℕ) (t i raw : ℕ) → write_entry m t i raw t i ≡ raw
write_at m t i raw = rw (==_refl t, ==_refl i)

pub write_other :
    (m : ℕ → ℕ → ℕ) (t i raw u j : ℕ) → ((u ≡ t) × (j ≡ i) → ⊥) → write_entry m t i raw u j ≡ m u j
write_other m t i raw u j ne = ground (arith, ne)

clear_other : (m : ℕ → ℕ → ℕ) (t u j : ℕ) → u ≢ t → clear_table m t u j ≡ m u j
clear_other m t u j ne = ground (arith, ne)

clear_at : (m : ℕ → ℕ → ℕ) (t j : ℕ) → clear_table m t t j ≡ 0
clear_at m t j = rw (==_refl t)

pub if_true : (b c : Bool) → c ≡ true → (if b then true else c) ≡ true
if_true true c e = refl
if_true false c e = e

unused-fresh :
    (s : Vmm) (level : ℕ → ℕ) (k : ℕ)
    → IsPaged s level
    → used s.pmm k ≡ false
    → level (k * page_size) ≡ 0
unused-fresh s level k paged free = elim (ℕ_discrete (level (k * page_size)) 0) [
  | yes e ↦ e
  | no ne ↦
      let (m, e, taken) = paged.frames (k * page_size) ne in
      let same : m ≡ k = omega (arith, e) in
      let bad : true ≡ false = sym taken ∙ ap (used s.pmm) same ∙ free in cc
]

created-Created :
    (s : Vmm) (level : ℕ → ℕ) (t i k attr : ℕ) (p : Pmm)
    → IsPaged s level
    → level t ≢ 0
    → present attr ≡ true
    → p.lock ≡ false
    → p.bitmap_size ≡ s.pmm.bitmap_size
    → Allocated s.pmm 1 (k * page_size) p
    → Created s level t i (k * page_size) (created s p t i (k * page_size) attr)
created-Created s level t i k attr p paged is on unlocked size a =
    let same : a.k ≡ k = omega (arith, a.address) in
    let blank_at : (j : ℕ) → clear_table s.tables (k * page_size) (k * page_size) j ≡ 0 =
      clear_at s.tables (k * page_size) in
    let fresh : level (k * page_size) ≡ 0 =
      unused-fresh s level k paged (a.was_free k (omega (arith, same)) (omega (arith, same))) in
    let not_new : (u : ℕ) → level u ≢ 0 → u ≢ k * page_size =
      λ u table e. table (ap level e ∙ fresh) in
    let raw : ℕ =
      set_entry (clear_table s.tables (k * page_size) t i) (k * page_size / 2 ^ 12) attr in
    let cleared : ℕ → ℕ → ℕ = clear_table s.tables (k * page_size) in
    record {
      fresh = fresh;
      frame = (k, refl, a.bits k ∙ (let e : in_run a.k 1 k ≡ true = ground (arith, same) in rw e));
      entry_target =
          rw
            (
              write_at cleared t i raw,
              address-set_entry (cleared t i) (k * page_size / 2 ^ 12) attr,
            )
            (omega (arith, a.inside, paged.small, same));
      entry_present =
          rw (write_at cleared t i raw)
            (present-set_entry (cleared t i) (k * page_size / 2 ^ 12) attr ∙ on);
      blank = λ j.
          write_other cleared t i raw (k * page_size) j (λ (e, _). not_new t is (sym e))
          ∙ blank_at j;
      others = λ u j table ne.
          write_other cleared t i raw u j ne
          ∙ clear_other s.tables (k * page_size) u j (not_new u table);
      kept = λ f u. a.bits f ∙ if_true (in_run a.k 1 f) (used s.pmm f) u;
      pmm_lock = unlocked;
      lock = refl;
      size = size;
    }

-- `createEntry` panics when the physical memory manager returns the null pointer, and else returns a
-- new table.
pub create_entry-Created :
    (s : Vmm) (level : ℕ → ℕ) (t i attr : ℕ)
    → IsPaged s level
    → level t ≢ 0
    → present attr ≡ true
    → (create_entry t i attr s ≡ panicked) × ((p : Pmm) × (pmm_get_frames 1 s.pmm ≡ ok 0 p))
      ⊎ (new : ℕ) × (s' : Vmm) × (create_entry t i attr s ≡ ok new s') × Created s level t i new s'
create_entry-Created s level t i attr paged is on =
    let (addr, p, run, unlocked, size, outcome) =
      pmm_get_frames-Allocated 1 (omega arith) (omega arith) s.pmm paged.pmm_lock (inl refl)
        (omega (arith, paged.small)) in
    elim outcome [
      | inl nothing ↦
          let null : pmm_get_frames 1 s.pmm ≡ ok 0 p =
            subst (λ x. pmm_get_frames 1 s.pmm ≡ ok x p) nothing.address run in
          inl (create_entry-panicked s t i attr p null, (p, null))
      | inr a ↦ elim (ℕ_discrete addr 0) [
        | yes e ↦
            let null : pmm_get_frames 1 s.pmm ≡ ok 0 p =
              subst (λ x. pmm_get_frames 1 s.pmm ≡ ok x p) e run in
            inl (create_entry-panicked s t i attr p null, (p, null))
        | no ne ↦
            let made : Allocated s.pmm 1 (a.k * page_size) p =
              subst (λ x. Allocated s.pmm 1 x p) a.address a in
            let run' : pmm_get_frames 1 s.pmm ≡ ok (a.k * page_size) p =
              subst (λ x. pmm_get_frames 1 s.pmm ≡ ok x p) a.address run in
            inr (
              a.k * page_size,
              created s p t i (a.k * page_size) attr,
              create_entry-ok s t i (a.k * page_size) attr p run' (λ e. ne (a.address ∙ e)),
              created-Created s level t i a.k attr p paged is on unlocked size made,
            )
      ]
    ]
