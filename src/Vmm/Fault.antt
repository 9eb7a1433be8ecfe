-- ===== src/Vmm/Fault.antt =====
-- The page-fault handler of kernel/src/mem/vmm.c.
use omega_os.Base.{
  ℕ, ◌+◌, ◌*◌, ◌/◌, ◌%◌, ◌^◌, ◌<◌, ◌≡◌, ◌≢◌, ◌⊎◌, inl, inr, refl, sym, ◌∙◌, subst, Bool, true,
  false, ◌||◌, not, ◌==◌, if◌then◌else◌, arith, ℕ_discrete,
}
use omega_os.Base.Run.{Run, ok, panicked, Cmd, and_then, pure, ◌>>=◌, ◌>>◌, assert}
use omega_os.Pmm.{Pmm, page_size, rnd_down, pmm_get_frame, pmm_get_frames}
use omega_os.Pmm.Bits.{used, in_run}
use omega_os.Pmm.Alloc.{pmm_get_frames-Allocated}
use omega_os.Vmm.{Vmm, on_pmm, vmm_map_page, user_attributes, present, virt2phys, walk, page_at}
use omega_os.Vmm.Entry.{page}
use omega_os.Vmm.Paged.{IsPaged}
use omega_os.Vmm.Create.{on_pmm-ok, if_true}
use omega_os.Vmm.Descend.{OutOfFrames}
use omega_os.Vmm.Map.{Mapped, vmm_map_page-Mapped}

-- What the handler did: it mapped a page, or it ended the process.
pub data Handled : Type 0 where
  mapped exited : Handled

-- `user` is `isUserInterrupt(stack)`, `code` the error code: its bits are `PF_PRESENT`,
-- `PF_WRITABLE` and `PF_USER`. `pml4` is the current process's table.
unfoldable pub page_fault_handler : (user : Bool) (code virt pml4 : ℕ) → Cmd Vmm Handled
page_fault_handler user code virt pml4 =
    if not user || not (code / 4 % 2 == 1)
    then (λ s. panicked)
    else let virt_addr = rnd_down virt page_size in
      if code % 2 == 1 || code / 2 % 2 == 1
      then (do
        frame ← on_pmm pmm_get_frame
        assert (not (frame == 0))
        vmm_map_page pml4 frame virt_addr user_attributes
        pure mapped)
      else pure exited

-- A frame that is in use stays in use.
keeps_shape :
    (s : Vmm) (level : ℕ → ℕ) (p : Pmm)
    → IsPaged s level
    → p.lock ≡ false
    → p.bitmap_size ≡ s.pmm.bitmap_size
    → ((f : ℕ) → used s.pmm f ≡ true → used p f ≡ true)
    → IsPaged (record s { pmm = p }) level
keeps_shape s level p paged unlocked size kept = record {
  pmm_lock = unlocked;
  small = rw size paged.small;
  frames = λ t table. let (k, e, taken) = paged.frames t table in (k, e, kept k taken);
  entries = paged.entries;
  single = paged.single;
}

-- Rounded up, twice, an address inside a page is on the page behind it.
rounded_page :
    (virt : ℕ)
    → virt % page_size ≢ 0
    → virt + 2 * page_size < 2 ^ 48
    → page (rnd_down (rnd_down virt page_size) page_size) ≡ page virt + 1
unfolding rnd_down
rounded_page virt offset small = omega (arith, offset, small)

-- The run of the handler up to the call of `vmm_mapPage`.
handler-null :
    (s : Vmm) (code virt pml4 : ℕ) (p : Pmm)
    → (code / 4 % 2 == 1) ≡ true
    → (code % 2 == 1 || code / 2 % 2 == 1) ≡ true
    → pmm_get_frames 1 s.pmm ≡ ok 0 p
    → page_fault_handler true code virt pml4 s ≡ panicked
unfolding page_fault_handler pmm_get_frame
handler-null s code virt pml4 p user maps run =
    rw (user, maps, on_pmm-ok (pmm_get_frames 1) s 0 p run)

handler-maps :
    (s : Vmm) (code virt pml4 frame : ℕ) (p : Pmm)
    → (code / 4 % 2 == 1) ≡ true
    → (code % 2 == 1 || code / 2 % 2 == 1) ≡ true
    → pmm_get_frames 1 s.pmm ≡ ok frame p
    → frame ≢ 0
    → page_fault_handler true code virt pml4 s
      ≡ and_then
          (vmm_map_page pml4 frame (rnd_down virt page_size) user_attributes (record s { pmm = p }))
          (λ _. pure mapped)
unfolding page_fault_handler pmm_get_frame
handler-maps s code virt pml4 frame p user maps run nz =
    let e : (frame == 0) ≡ false = ground (arith, nz) in
    rw (user, maps, on_pmm-ok (pmm_get_frames 1) s frame p run, e)

present_user : present user_attributes ≡ true
unfolding present
present_user = ground arith

-- The page behind that of `virt` is translated to `frame`, which was free, and every other address,
-- `virt` itself among them, is translated as before.
pub record MappedBehind (s : Vmm) (pml4 virt frame : ℕ) (s' : Vmm) : Type 0 where
  pub free : used s.pmm (frame / page_size) ≡ false
  pub behind : (w : ℕ) → page w ≡ page virt + 1 → virt2phys pml4 w s' ≡ frame
  pub elsewhere : (w : ℕ) → page w ≢ page virt + 1 → virt2phys pml4 w s' ≡ virt2phys pml4 w s
  pub missed : virt2phys pml4 virt s' ≡ virt2phys pml4 virt s

-- The handler panics since there is no frame for the page or for a table on the way, or it maps a
-- frame behind the address.
abbrev pub Missed : Vmm → (level : ℕ → ℕ) → (pml4 virt : ℕ) → Run Vmm Handled → Type 0
Missed s level pml4 virt r =
    (frame : ℕ) × (p : Pmm) × (pmm_get_frames 1 s.pmm ≡ ok frame p)
    × ((r ≡ panicked) × ((frame ≡ 0) ⊎ OutOfFrames (record s { pmm = p; lock = true }) level)
        ⊎ (s' : Vmm) × (r ≡ ok mapped s') × MappedBehind s pml4 virt frame s')

-- What `Mapped` says in the state with the frame taken.
Mapped-behind :
    (s : Vmm) (level : ℕ → ℕ) (pml4 virt frame : ℕ) (p : Pmm) (s' : Vmm)
    → Mapped
        (record s { pmm = p })
        level
        pml4
        frame
        (rnd_down (rnd_down virt page_size) page_size)
        s'
    → used s.pmm (frame / page_size) ≡ false
    → frame / 2 ^ 12 % 2 ^ 40 * 2 ^ 12 ≡ frame
    → page (rnd_down (rnd_down virt page_size) page_size) ≡ page virt + 1
    → MappedBehind s pml4 virt frame s'
unfolding virt2phys walk page_at
Mapped-behind s level pml4 virt frame p s' m free whole rounded = record {
  free = free;
  behind = λ w e. m.here w (e ∙ sym rounded) ∙ whole;
  elsewhere = λ w ne. m.elsewhere w (λ e. ne (e ∙ rounded));
  missed = m.elsewhere virt (λ e. absurd (omega (arith, e, rounded)));
}

-- When a process faults at an address that is not on a page boundary, the handler takes a frame.
-- It panics only when that is the null pointer or the memory manager has no frame for a table on the
-- way. Otherwise it returns, and has mapped the frame, which was free, to the page behind that of the
-- address, and nothing else: every other address, the one of the fault among them, is translated as
-- before.
pub page_fault_handler-Missed :
    (s : Vmm) (level : ℕ → ℕ) (code virt pml4 : ℕ)
    → IsPaged s level
    → s.lock ≡ false
    → level pml4 ≡ 4
    → (code / 4 % 2 == 1) ≡ true
    → (code % 2 == 1 || code / 2 % 2 == 1) ≡ true
    → virt % page_size ≢ 0
    → virt + 2 * page_size < 2 ^ 48
    → Missed s level pml4 virt (page_fault_handler true code virt pml4 s)
page_fault_handler-Missed s level code virt pml4 paged unlocked top user maps offset small =
    let (frame, p, run, free, size, outcome) =
      pmm_get_frames-Allocated 1 (omega arith) (omega arith) s.pmm paged.pmm_lock (inl refl)
        (omega (arith, paged.small)) in
    (
      frame,
      p,
      run,
      elim (ℕ_discrete frame 0) [
        | yes e ↦ inl (
          handler-null s code virt pml4 p user maps
              (subst (λ a. pmm_get_frames 1 s.pmm ≡ ok a p) e run),
          inl e,
        )
        | no nz ↦ elim outcome [
          | inl nothing ↦ absurd (nz nothing.address)
          | inr a ↦
              let shape : IsPaged (record s { pmm = p }) level =
                keeps_shape s level p paged free size
                  (λ f taken. a.bits f ∙ if_true (in_run a.k 1 f) (used s.pmm f) taken) in
              let number : frame / page_size ≡ a.k = omega (arith, a.address) in
              let was : used s.pmm (frame / page_size) ≡ false =
                a.was_free (frame / page_size) (omega (arith, number)) (omega (arith, number)) in
              let whole : frame / 2 ^ 12 % 2 ^ 40 * 2 ^ 12 ≡ frame =
                omega (arith, a.address, a.inside, paged.small) in
              elim (vmm_map_page-Mapped (record s { pmm = p }) level pml4 frame
                (rnd_down virt page_size) user_attributes shape unlocked top present_user) [
                  | inl (stops, out, _) ↦
                      inl (
                        handler-maps s code virt pml4 frame p user maps run nz ∙ (rw stops),
                        inr out,
                      )
                  | inr (s', done, m) ↦ inr (
                    s',
                    handler-maps s code virt pml4 frame p user maps run nz ∙ (rw done),
                    Mapped-behind s level pml4 virt frame p s' m was whole
                        (rounded_page virt offset small),
                  )
                ]
        ]
      ],
    )
