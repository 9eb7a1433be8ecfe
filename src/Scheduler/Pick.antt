-- ===== src/Scheduler/Pick.antt =====
-- `getNextProcess`, `scheduler_add` and `dispatch` of kernel/src/sys/scheduler.c over queues that
-- are first-in first-out.
use omega_os.Base.{
  put, put_at, ℕ, zero, suc, ◌+◌, ◌<◌, ◌≤◌, ◌≡◌, refl, Bool, true, false, List, [], ◌∷◌, ◌++◌,
  arith, ltb, leb, ◌==◌, if◌then◌else◌, length, length-append, u64, sym, ap, ◌∙◌, subst, ◌⊎◌, inl,
  inr, lt→ltb, dec_lt, ℕ_discrete,
}
use omega_os.Base.Run.{Run, Cmd, ok, panicked}
use omega_os.Scheduler.{
  Sched, Process, InterruptStack, save_context, priorities, on_queue, next_below, get_next_process,
  scheduler_add, dispatch,
}
use omega_os.Scheduler.Fifo.{FifoQueue}

module _ (F : FifoQueue) where
  open F use {Q, Holds, Fresh, count, enqueue, dequeue, count-Holds, enqueue-Holds, dequeue-Holds}

  -- The queue of each priority holds its list of processes.
  abbrev pub IsReady : Sched F → (ℕ → List ℕ) → Type 0
  IsReady s l = (i : ℕ) → i < priorities → Holds (s.queues i) (l i)

  -- No counter is at its bound.
  abbrev pub IsShort : (ℕ → List ℕ) → Type 0
  IsShort l = (i : ℕ) → i < priorities → length (l i) + 1 < u64

  -- The first process of the highest priority below `n` that has one is chosen and leaves its queue;
  -- the process table and the current process are as before.
  pub record Picked (s : Sched F) (l : ℕ → List ℕ) (n : ℕ) (r : Run (Sched F) ℕ) : Type 0 where
    pub level : ℕ
    pub process : ℕ
    pub behind : List ℕ
    pub after : Sched F
    pub below : level < n
    pub first : l level ≡ process ∷ behind
    pub higher : (j : ℕ) → level < j → j < n → l j ≡ []
    pub run : r ≡ ok process after
    pub queues : IsReady after (put l level behind)
    pub processes : after.processes ≡ s.processes
    pub current : after.current ≡ s.current

  either_Holds :
      (b : Bool) (q q' : Q) (xs ys : List ℕ)
      → Holds q xs
      → Holds q' ys
      → Holds (if b then q else q') (if b then xs else ys)
  either_Holds true q q' xs ys h h' = h
  either_Holds false q q' xs ys h h' = h'

  put-IsReady :
      (s : Sched F) (l : ℕ → List ℕ) (i : ℕ) (q : Q) (xs : List ℕ)
      → IsReady s l
      → Holds q xs
      → IsReady (record s { queues = put s.queues i q }) (put l i xs)
  put-IsReady s l i q xs ready holds j below =
      either_Holds (j == i) q (s.queues j) xs (l j) holds (ready j below)

  -- A call on a queue that returns changes that queue only.
  on_queue-ok :
      {A : Type 0} (s : Sched F) (i : ℕ) (m : Cmd Q A) (a : A) (q : Q)
      → m (s.queues i) ≡ ok a q
      → on_queue F i m s ≡ ok a (record s { queues = put s.queues i q })
  on_queue-ok s i m a q run = rw (on_queue, run)

  abbrev pub Outcome : Sched F → (ℕ → List ℕ) → ℕ → Run (Sched F) ℕ → Type 0
  Outcome s l n r = Picked s l n r ⊎ (((j : ℕ) → j < n → l j ≡ []) × (r ≡ panicked))

  add_top : (P : ℕ → Type 0) (n : ℕ) → P n → ((j : ℕ) → j < n → P j) → (j : ℕ) → j < suc n → P j
  add_top P n top rest j below = elim (ℕ_discrete j n) [
    | yes same ↦ subst P (sym same) top
    | no ne ↦ rest j (omega (arith, below, ne))
  ]

  next_below-Outcome :
      (s : Sched F) (l : ℕ → List ℕ) (n : ℕ) (xs : List ℕ)
      → n < priorities
      → IsReady s l
      → IsShort l
      → l n ≡ xs
      → Outcome s l n (next_below F n s)
      → Outcome s l (suc n) (next_below F (suc n) s)
  unfolding next_below
  next_below-Outcome s l n [] fits ready short e (inl p) =
      let idle : ltb 0 (count (s.queues n)) ≡ false =
        rw (count-Holds (s.queues n) (l n) (ready n fits), e) in
      inl (record {
        level = p.level;
        process = p.process;
        behind = p.behind;
        after = p.after;
        below = omega (arith, p.below);
        first = p.first;
        higher = λ j h b.
            add_top (λ k. p.level < k → l k ≡ []) n (λ _. e) (λ k d g. p.higher k g d) j b h;
        run = rw (next_below, idle) p.run;
        queues = p.queues;
        processes = p.processes;
        current = p.current;
      })
  next_below-Outcome s l n [] fits ready short e (inr (none_left, run)) =
      let idle : ltb 0 (count (s.queues n)) ≡ false =
        rw (count-Holds (s.queues n) (l n) (ready n fits), e) in
      inr (add_top (λ k. l k ≡ []) n e none_left, rw (next_below, idle) run)
  next_below-Outcome s l n (x ∷ xs) fits ready short e rest =
      let busy : ltb 0 (count (s.queues n)) ≡ true =
        rw (count-Holds (s.queues n) (l n) (ready n fits), e)
          (lt→ltb 0 (length (x ∷ xs)) (omega arith)) in
      let few : length xs + 1 < u64 = omega (arith, short n fits, ap length e) in
      let (q', run, holds) =
        dequeue-Holds (s.queues n) x xs (subst (Holds (s.queues n)) e (ready n fits)) few in
      inl (record {
        level = n;
        process = x;
        behind = xs;
        after = record s { queues = put s.queues n q' };
        below = omega arith;
        first = e;
        higher = λ j h b. absurd (omega (arith, h, b));
        run = rw (next_below, busy) (on_queue-ok s n dequeue x q' run);
        queues = put-IsReady s l n q' xs ready holds;
        processes = refl;
        current = refl;
      })

  next_below-all :
      (s : Sched F) (l : ℕ → List ℕ) (n : ℕ)
      → n ≤ priorities
      → IsReady s l
      → IsShort l
      → Outcome s l n (next_below F n s)
  unfolding next_below
  next_below-all s l zero fits ready short = inr (λ j h. absurd (omega (arith, h)), refl)
  next_below-all s l (suc n) fits ready short =
      next_below-Outcome s l n (l n) (omega (arith, fits)) ready short refl
        (next_below-all s l n (omega (arith, fits)) ready short)

  -- `getNextProcess` takes the process that has waited longest in the queue of the highest priority
  -- that is not empty, and changes no other queue, no process and not the current process; when all
  -- four queues are empty it panics.
  pub get_next_process-Picked :
      (s : Sched F) (l : ℕ → List ℕ)
      → IsReady s l
      → IsShort l
      → Picked s l priorities (get_next_process F s)
        ⊎ (((j : ℕ) → j < priorities → l j ≡ []) × (get_next_process F s ≡ panicked))
  unfolding get_next_process
  get_next_process-Picked s l ready short = next_below-all s l priorities (omega arith) ready short

  either_short :
      (b : Bool) (xs ys : List ℕ)
      → length xs + 1 < u64
      → length ys + 1 < u64
      → length (if b then xs else ys) + 1 < u64
  either_short true xs ys h h' = h
  either_short false xs ys h h' = h'

  append-IsShort :
      (l : ℕ → List ℕ) (p c : ℕ)
      → length (l p) + 2 < u64
      → IsShort l
      → IsShort (put l p (l p ++ c ∷ []))
  append-IsShort l p c room short i below =
      either_short (i == p) (l p ++ c ∷ []) (l i)
        (omega (arith, room, length-append {0} (l p) (c ∷ []))) (short i below)

  append-not_empty : (xs : List ℕ) (c : ℕ) → xs ++ c ∷ [] ≡ [] → ⊥
  append-not_empty xs c e = omega (arith, ap length e, length-append {0} xs (c ∷ []))

  Picked-of :
      (s u : Sched F) (l : ℕ → List ℕ) (n : ℕ) (r : Run (Sched F) ℕ)
      → r ≡ get_next_process F u
      → u.processes ≡ s.processes
      → u.current ≡ s.current
      → Picked u l n (get_next_process F u)
      → Picked s l n r
  Picked-of s u l n r e ps cs p = record {
    level = p.level;
    process = p.process;
    behind = p.behind;
    after = p.after;
    below = p.below;
    first = p.first;
    higher = p.higher;
    run = e ∙ p.run;
    queues = p.queues;
    processes = p.processes ∙ ps;
    current = p.current ∙ cs;
  }

  -- `scheduler_add` puts the process behind those of its priority when it has one of the four, with
  -- memory that `kmalloc` has just handed out, and panics on any other priority.
  pub scheduler_add-IsReady :
      (tmp process : ℕ) (s : Sched F) (l : ℕ → List ℕ)
      → IsReady s l
      → IsShort l
      → Fresh (s.queues (s.processes process).priority) tmp
      → let p : ℕ = (s.processes process).priority in
        (priorities ≤ p) × (scheduler_add F tmp process s ≡ panicked)
        ⊎ (q : Q) × (p < priorities)
          × (scheduler_add F tmp process s ≡ ok tt (record s { queues = put s.queues p q }))
          × IsReady (record s { queues = put s.queues p q }) (put l p (l p ++ process ∷ []))
  unfolding scheduler_add
  scheduler_add-IsReady tmp process s l ready short fresh =
      elim (dec_lt (s.processes process).priority priorities) [
        | no big ↦
            let closed : ltb (s.processes process).priority priorities ≡ false =
              ground (arith, big) in
            let opened : leb 0 (s.processes process).priority ≡ true = ground arith in
            inl (omega (arith, big), rw (opened, closed))
        | yes small ↦
            let p : ℕ = (s.processes process).priority in
            let (q, run, holds) =
              enqueue-Holds tmp process (s.queues p) (l p) (ready p small) fresh (short p small) in
            let opened : leb 0 p ≡ true = ground arith in
            inr (
              q,
              small,
              rw (opened, lt→ltb p priorities small)
                  (on_queue-ok s p (enqueue tmp process) tt q run),
              put-IsReady s l p q (l p ++ process ∷ []) ready holds,
            )
      ]

  -- The state in which `dispatch` has stored the registers of the interrupted process.
  abbrev pub interrupted : Sched F → InterruptStack → Sched F
  interrupted s stack = record s {
    processes =
        put s.processes s.current
          (record (s.processes s.current) { ctx = save_context stack (s.processes s.current).ctx });
  }

  -- `dispatch` stores the registers of the interrupted process, puts that process behind those of its
  -- priority, and returns the one that has waited longest in the queue of the highest priority that
  -- is then not empty. It never panics.
  pub dispatch-Picked :
      (tmp : ℕ) (stack : InterruptStack) (s : Sched F) (l : ℕ → List ℕ)
      → IsReady s l
      → ((i : ℕ) → i < priorities → length (l i) + 2 < u64)
      → (s.processes s.current).priority < priorities
      → Fresh (s.queues (s.processes s.current).priority) tmp
      → let p : ℕ = (s.processes s.current).priority in
        Picked
          (interrupted s stack)
          (put l p (l p ++ s.current ∷ []))
          priorities
          (dispatch F tmp stack s)
  unfolding dispatch
  dispatch-Picked tmp stack s l ready short small fresh =
      let p : ℕ = (s.processes s.current).priority in
      let xs : List ℕ = l p ++ s.current ∷ [] in
      let saved : Process = record (s.processes s.current) {
        ctx = save_context stack (s.processes s.current).ctx;
      } in
      let (q, run, holds) =
        enqueue-Holds tmp s.current (s.queues p) (l p) (ready p small) fresh
          (omega (arith, short p small)) in
      let t : Sched F = interrupted s stack in
      let u : Sched F = record t { queues = put s.queues p q } in
      let same : (put s.processes s.current saved s.current).priority ≡ p =
        ap (λ r. r.priority) (put_at s.processes s.current saved) in
      let whole : dispatch F tmp stack s ≡ get_next_process F u =
        rw (same, on_queue-ok t p (enqueue tmp s.current) tt q run) in
      Picked-of t u (put l p xs) priorities (dispatch F tmp stack s) whole refl refl
        (elim (get_next_process-Picked u (put l p xs) (put-IsReady t l p q xs ready holds)
          (append-IsShort l p s.current (short p small) (λ i h. omega (arith, short i h)))) [
            | inl picked ↦ picked
            | inr (none_left, _) ↦
                absurd (append-not_empty (l p) s.current (sym (put_at l p xs) ∙ none_left p small))
          ])
