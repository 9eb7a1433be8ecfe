-- ===== src/Scheduler.antt =====
-- The scheduler: kernel/src/sys/scheduler.c, with the process and context types of
-- kernel/include/sys/process.h and the interrupt frame of kernel/include/arch/isr.h. The four
-- queues come through the interface `Fifo`, which `Linked` fills.
pub mod Fifo
pub mod Linked
pub mod Pick
mod Tests
use omega_os.Base.{
  ℕ, zero, suc, ◌+◌, ◌<◌, ◌≡◌, Bool, true, false, ◌&&◌, not, Option, none, some, ltb, leb, ◌==◌,
  if◌then◌else◌, put,
}
use omega_os.Base.Run.{
  Run, ok, panicked, fault, deadlock, out_of_fuel, Cmd, pure, ◌>>=◌, ◌>>◌, gets, modify, assert,
}
use Fifo.{FifoQueue}

-- `PROCESS_PRIORITIES_COUNT`: idle, low, high and interactive.
abbrev pub priorities : ℕ
priorities = 4

pub record Context : Type 0 where
  pub rip : ℕ
  pub cs : ℕ
  pub rsp : ℕ
  pub rflags : ℕ
  pub ss : ℕ
  pub rax : ℕ
  pub rbx : ℕ
  pub rcx : ℕ
  pub rdx : ℕ
  pub rdi : ℕ
  pub rsi : ℕ
  pub rbp : ℕ
  pub r8 : ℕ
  pub r9 : ℕ
  pub r10 : ℕ
  pub r11 : ℕ
  pub r12 : ℕ
  pub r13 : ℕ
  pub r14 : ℕ
  pub r15 : ℕ
  pub stack_buttom : ℕ
  pub stack_size : ℕ

pub record InterruptStack : Type 0 where
  pub ds : ℕ
  pub r15 : ℕ
  pub r14 : ℕ
  pub r13 : ℕ
  pub r12 : ℕ
  pub r11 : ℕ
  pub r10 : ℕ
  pub r9 : ℕ
  pub r8 : ℕ
  pub rbp : ℕ
  pub rsi : ℕ
  pub rdi : ℕ
  pub rdx : ℕ
  pub rcx : ℕ
  pub rbx : ℕ
  pub rax : ℕ
  pub interrupt_number : ℕ
  pub error_code : ℕ
  pub rip : ℕ
  pub cs : ℕ
  pub rflags : ℕ
  pub rsp : ℕ
  pub ss : ℕ

-- What the scheduler reads and writes of a `Process_t`; the enumeration keeps the priority from
-- being negative.
pub record Process : Type 0 where
  pub ctx : Context
  pub priority : ℕ

-- `dispatch` stores these registers of the interrupted process.
unfoldable pub save_context : InterruptStack → Context → Context
save_context stack ctx = record ctx {
  rip = stack.rip;
  cs = stack.cs;
  rsp = stack.rsp;
  rflags = stack.rflags;
  ss = stack.ds;
  rax = stack.rax;
  rbx = stack.rbx;
  rcx = stack.rcx;
  rdx = stack.rdx;
  rdi = stack.rdi;
  rsi = stack.rsi;
  rbp = stack.rbp;
  r8 = stack.r8;
  r9 = stack.r9;
  r10 = stack.r10;
  r11 = stack.r11;
  r12 = stack.r12;
  r13 = stack.r13;
  r14 = stack.r14;
  r15 = stack.r15;
}

module _ (F : FifoQueue) where
  open F use {Q, count, create, enqueue, dequeue, remove}

  -- The process table by address, the queues by priority, and `currentProcess` of this core.
  pub record Sched : Type 0 where
    pub processes : ℕ → Process
    pub queues : ℕ → Q
    pub current : ℕ

  -- A call on the queue of one priority.
  abbrev pub on_queue : {A : Type 0} → ℕ → Cmd Q A → Cmd Sched A
  on_queue i m s = elim (m (s.queues i)) [
    | ok a q ↦ ok a (record s { queues = put s.queues i q })
    | panicked ↦ panicked
    | fault ↦ fault
    | deadlock ↦ deadlock
    | out_of_fuel ↦ out_of_fuel
  ]

  -- The loop of `getNextProcess` over the queues below `n`, the highest first.
  pub next_below : ℕ → Cmd Sched ℕ
  next_below zero s = panicked
  next_below (suc i) s = elim (ltb 0 (count (s.queues i))) [
    | true ↦ on_queue i dequeue s
    | false ↦ next_below i s
  ]

  pub get_next_process : Cmd Sched ℕ
  unfolding next_below
  get_next_process = next_below priorities

  -- `tmp` is what `kmalloc` returns for the node.
  pub scheduler_add : (tmp process : ℕ) → Cmd Sched (Unit {0})
  scheduler_add tmp process = do
    priority ← gets (λ s. (s.processes process).priority)
    assert (leb 0 priority && ltb priority priorities)
    on_queue priority (enqueue tmp process)

  pub scheduler_remove : (process : ℕ) → Cmd Sched (Unit {0})
  scheduler_remove process = do
    priority ← gets (λ s. (s.processes process).priority)
    assert (leb 0 priority && ltb priority priorities)
    on_queue priority (remove process)

  -- The loop of `scheduler_init` with `n` queues left; `tmps` is what `kmalloc` returns.
  pub create_queues : (tmps : ℕ → ℕ) (n i : ℕ) → Cmd Sched (Unit {0})
  create_queues tmps zero i s = ok tt s
  create_queues tmps (suc n) i s = elim (create (tmps i)) [
    | none ↦ panicked
    | some q ↦ create_queues tmps n (i + 1) (record s { queues = put s.queues i q })
  ]

  pub scheduler_init : (array : ℕ) (tmps : ℕ → ℕ) (tmp : ℕ) → Cmd Sched (Unit {0})
  unfolding create_queues scheduler_add
  scheduler_init array tmps tmp = do
    assert (not (array == 0))
    create_queues tmps priorities 0
    current ← gets (λ s. s.current)
    scheduler_add tmp current

  -- Without its last step, the switch to the address space and context of the process returned.
  pub yield_to : (process : ℕ) → Cmd Sched ℕ
  unfolding get_next_process
  yield_to process =
      if process == 0
      then (do next ← get_next_process; modify (λ s. record s { current = next }); pure next)
      else (do modify (λ s. record s { current = process }); pure process)

  pub dispatch : (tmp : ℕ) → InterruptStack → Cmd Sched ℕ
  unfolding get_next_process
  dispatch tmp stack = do
    current ← gets (λ s. s.current)
    modify (λ s. record s {
      processes =
          put s.processes current
            (record (s.processes current) { ctx = save_context stack (s.processes current).ctx });
    })
    priority ← gets (λ s. (s.processes current).priority)
    on_queue priority (enqueue tmp current)
    get_next_process
