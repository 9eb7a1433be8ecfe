-- ===== src/Scheduler/Linked.antt =====
-- The queue of kernel/src/misc/queue.c is what the scheduler expects.
use omega_os.Base.{
  ℕ, ◌+◌, ◌<◌, ◌≡◌, ◌≢◌, refl, Option, none, some, List, [], ◌∷◌, ◌++◌, arith, length, sym, ap, ◌∙◌,
  u64,
}
use omega_os.Base.Run.{ok}
use omega_os.Queue.{
  Queue, QueueNode, null, queue_create, queue_enqueue, queue_deqeueue, queue_remove,
}
use omega_os.Queue.Chain.{Cells, IsQueue, items}
use omega_os.Queue.Ops.{
  queue_create-IsQueue, queue_enqueue-IsQueue, queue_deqeueue-IsQueue, items-append,
}
use omega_os.Scheduler.Fifo.{FifoQueue}

abbrev pub Holds : Queue → List ℕ → Type 0
Holds q xs = (cs : Cells) × IsQueue q cs × (items cs ≡ xs)

length-items : (cs : Cells) → length (items cs) ≡ length cs
length-items [] = refl
length-items (c ∷ cs) = omega (arith, length-items cs)

pub count-Holds : (q : Queue) (xs : List ℕ) → Holds q xs → q.count ≡ length xs
count-Holds q xs (cs, is, e) = is.count ∙ sym (length-items cs) ∙ ap length e

pub enqueue-Holds :
    (t d : ℕ) (q : Queue) (xs : List ℕ)
    → Holds q xs
    → (t ≢ null) × (q.mem t ≡ none)
    → length xs + 1 < u64
    → (q' : Queue) × (queue_enqueue t d q ≡ ok tt q') × Holds q' (xs ++ d ∷ [])
enqueue-Holds t d q xs (cs, is, e) (nt, unused) few =
    let n : length cs ≡ length xs = sym (length-items cs) ∙ ap length e in
    let (q', run, is') = queue_enqueue-IsQueue t d q cs is nt unused (omega arith) in
    (q', run, (cs ++ (t, d) ∷ [], is', items-append cs t d ∙ ap (λ l. l ++ d ∷ []) e))

pub dequeue-Holds :
    (q : Queue) (x : ℕ) (xs : List ℕ)
    → Holds q (x ∷ xs)
    → length xs + 1 < u64
    → (q' : Queue) × (queue_deqeueue q ≡ ok x q') × Holds q' xs
dequeue-Holds q x xs ([], is, e) few = cc
dequeue-Holds q x xs ((a, d) ∷ cs, is, e) few =
    let item : d ≡ x = cc in
    let others : items cs ≡ xs = cc in
    let n : length cs ≡ length xs = sym (length-items cs) ∙ ap length others in
    let (q', run, _, is') = queue_deqeueue-IsQueue q a d cs is (omega arith) in
    (q', run ∙ ap (λ v. ok v q') item, (cs, is', others))

pub create-Holds :
    (tmp : ℕ) (mem : ℕ → Option QueueNode) (q : Queue) → queue_create tmp mem ≡ some q → Holds q []
create-Holds tmp mem q e = ([], queue_create-IsQueue tmp mem q e, refl)

-- The memory that `mem` describes is there before any queue is.
abbrev pub linked_queue : (ℕ → Option QueueNode) → FifoQueue
linked_queue mem = record {
  Q = Queue;
  Holds = Holds;
  Fresh = λ q t. (t ≢ null) × (q.mem t ≡ none);
  count = λ q. q.count;
  create = λ tmp. queue_create tmp mem;
  enqueue = queue_enqueue;
  dequeue = queue_deqeueue;
  remove = λ item q. queue_remove (q.count + 1) item q;
  create-Holds = λ tmp q. create-Holds tmp mem q;
  count-Holds = count-Holds;
  enqueue-Holds = enqueue-Holds;
  dequeue-Holds = dequeue-Holds;
}
