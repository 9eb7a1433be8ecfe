-- ===== src/Queue/Tests.antt =====
-- The theorems about kernel/src/misc/queue.c at a queue of two nodes.
use omega_os.Base.{ℕ, ◌≡◌, ◌≢◌, refl, true, false, Option, none, some, [], ◌∷◌, ◌++◌, arith}
use omega_os.Base.Run.{ok, fault, deadlock}
use omega_os.Queue.{Queue, QueueNode, node, write, queue_enqueue, queue_deqeueue, queue_remove}
use omega_os.Queue.Chain.{Cells, IsQueue, items}
use omega_os.Queue.Ops.{History, now, enqueued, dequeued, History-fifo}
use omega_os.Queue.Remove.{queue_remove-absent, queue_remove-IsQueue, queue_remove-dangling}

abbrev mem : ℕ → Option QueueNode
mem = write (write (λ _. none) 0x10 (some (node 7 0x20))) 0x20 (some (node 9 0))

abbrev two : Queue
two = record { mem = mem; front = 0x10; rear = 0x20; count = 2; lock = false }

abbrev cells : Cells
cells = (0x10, 7) ∷ (0x20, 9) ∷ []

two-IsQueue : IsQueue two cells
two-IsQueue = record {
  chain = (refl, ground arith, refl, (0x20, refl, (refl, ground arith, refl, (0, refl, refl))));
  rear = refl;
  count = refl;
  lock = refl;
}

abbrev one : Queue
one = record { mem = write mem 0x10 none; front = 0x20; rear = 0x20; count = 1; lock = false }

abbrev grown : Queue
grown = record one {
  mem = write (write one.mem 0x30 (some (node 5 0))) 0x20 (some (node 9 0x30));
  rear = 0x30;
  count = 2;
}

history : History two (5 ∷ []) (7 ∷ []) grown
unfolding queue_deqeueue queue_enqueue
history = dequeued 7 (ground arith) refl (enqueued 0x30 5 (ground arith) refl refl now)

History-fifo_example :
    (ys : Cells) × IsQueue grown ys × (items cells ++ 5 ∷ [] ≡ (7 ∷ []) ++ items ys)
History-fifo_example = History-fifo cells two-IsQueue history (omega arith)

queue_remove-absent_example :
    let q' : Queue = record two { lock = true } in
    (queue_remove 3 8 two ≡ ok tt q')
    × ((t e : ℕ) → queue_enqueue t e q' ≡ deadlock)
    × (two.count ≢ 0 → queue_deqeueue q' ≡ deadlock)
queue_remove-absent_example = queue_remove-absent 3 8 two cells two-IsQueue refl (omega arith)

queue_remove-IsQueue_example :
    (q' : Queue) × (queue_remove 3 7 two ≡ ok tt q')
    × (q'.mem 0x10 ≡ none)
    × IsQueue q' ((0x20, 9) ∷ [])
queue_remove-IsQueue_example =
    queue_remove-IsQueue 3 0x10 7 two [] (0x20, 9) [] two-IsQueue refl (omega arith) (omega arith)

queue_remove-dangling_example :
    (q' : Queue) × (queue_remove 3 9 two ≡ ok tt q')
    × (q'.rear ≡ 0x20)
    × (q'.mem 0x20 ≡ none)
    × ((t e : ℕ) → t ≢ 0 → t ≢ 0x20 → queue_enqueue t e q' ≡ fault)
queue_remove-dangling_example =
    queue_remove-dangling 3 0x20 9 two ((0x10, 7) ∷ []) two-IsQueue refl (omega arith) (omega arith)
