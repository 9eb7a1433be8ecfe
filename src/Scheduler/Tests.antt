-- ===== src/Scheduler/Tests.antt =====
-- The theorems about kernel/src/sys/scheduler.c with two processes, on the linked queues.
use omega_os.Base.{
  put, zero, suc, ℕ, ◌+◌, ◌<◌, refl, false, Option, none, some, List, [], ◌∷◌, ◌++◌, arith, length,
  u64,
}
use omega_os.Queue.{Queue, QueueNode, node, write}
use omega_os.Scheduler.{Sched, Context, InterruptStack, priorities, dispatch}
use omega_os.Scheduler.Linked.{linked_queue}
use omega_os.Scheduler.Pick.{IsReady, Picked, interrupted, dispatch-Picked}

abbrev no_memory : ℕ → Option QueueNode
no_memory a = none

abbrev empty : Queue
empty = record { mem = no_memory; front = 0; rear = 0; count = 0; lock = false }

abbrev waiting : Queue
waiting = record empty {
  mem = write no_memory 0x10 (some (node 0x700 0));
  front = 0x10;
  rear = 0x10;
  count = 1;
}

abbrev zeros : Context
zeros = record {
  rip = 0;
  cs = 0;
  rsp = 0;
  rflags = 0;
  ss = 0;
  rax = 0;
  rbx = 0;
  rcx = 0;
  rdx = 0;
  rdi = 0;
  rsi = 0;
  rbp = 0;
  r8 = 0;
  r9 = 0;
  r10 = 0;
  r11 = 0;
  r12 = 0;
  r13 = 0;
  r14 = 0;
  r15 = 0;
  stack_buttom = 0;
  stack_size = 0;
}

abbrev frame : InterruptStack
frame = record {
  ds = 16;
  r15 = 15;
  r14 = 14;
  r13 = 13;
  r12 = 12;
  r11 = 11;
  r10 = 10;
  r9 = 9;
  r8 = 8;
  rbp = 7;
  rsi = 6;
  rdi = 5;
  rdx = 4;
  rcx = 3;
  rbx = 2;
  rax = 1;
  interrupt_number = 32;
  error_code = 0;
  rip = 0x400000;
  cs = 8;
  rflags = 0x202;
  rsp = 0x7000;
  ss = 16;
}

-- The process 0x700 waits with priority 1 and the process 0x900, of priority 2, runs.
abbrev sched : Sched (linked_queue no_memory)
sched = record {
  processes =
      put (λ a. record { ctx = zeros; priority = 1 }) 0x900 (record { ctx = zeros; priority = 2 });
  queues = put (λ i. empty) 1 waiting;
  current = 0x900;
}

abbrev lists : ℕ → List ℕ
lists = put (λ i. []) 1 (0x700 ∷ [])

sched-IsReady : IsReady (linked_queue no_memory) sched lists
sched-IsReady zero h = ([], record { chain = refl; rear = refl; count = refl; lock = refl }, refl)
sched-IsReady (suc zero) h = (
  (0x10, 0x700) ∷ [],
  record {
    chain = (refl, ground arith, refl, (0, refl, refl));
    rear = refl;
    count = refl;
    lock = refl;
  },
  refl,
)
sched-IsReady (suc (suc zero)) h =
    ([], record { chain = refl; rear = refl; count = refl; lock = refl }, refl)
sched-IsReady (suc (suc (suc zero))) h =
    ([], record { chain = refl; rear = refl; count = refl; lock = refl }, refl)
sched-IsReady (suc (suc (suc (suc n)))) h = absurd (omega (arith, h))

lists-short : (i : ℕ) → i < priorities → length (lists i) + 2 < u64
lists-short zero h = omega arith
lists-short (suc zero) h = omega arith
lists-short (suc (suc zero)) h = omega arith
lists-short (suc (suc (suc zero))) h = omega arith
lists-short (suc (suc (suc (suc n)))) h = absurd (omega (arith, h))

dispatch-Picked_example :
    Picked
      (linked_queue no_memory)
      (interrupted (linked_queue no_memory) sched frame)
      (put lists 2 (lists 2 ++ 0x900 ∷ []))
      priorities
      (dispatch (linked_queue no_memory) 0x20 frame sched)
dispatch-Picked_example =
    dispatch-Picked (linked_queue no_memory) 0x20 frame sched lists sched-IsReady lists-short
      (omega arith) (ground arith, refl)
