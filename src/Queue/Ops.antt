-- ===== src/Queue/Ops.antt =====
-- `queue_create`, `queue_enqueue` and `queue_deqeueue` of kernel/src/misc/queue.c are a first-in
-- first-out queue.
use omega_os.Base.{
  ℕ, ◌+◌, ◌<◌, ◌≡◌, ◌≢◌, refl, false, Option, none, some, List, [], ◌∷◌, ◌++◌, arith, ◌==◌, length,
  length-append, u64, add64, sub64, ◌∙◌, ap, ap₂, sym, subst,
}
use mathlib.Core.List.{append-nil, append_assoc}
use omega_os.Base.Run.{ok}
use omega_os.Queue.{
  Queue, QueueNode, node, write, null, queue_create, queue_enqueue, queue_deqeueue,
}
use omega_os.Queue.Chain.{
  Cells, has, Chain, last, items, IsQueue, Chain-write, has_of_none, Chain-snoc,
}

-- A new queue is empty.
pub queue_create-IsQueue :
    (tmp : ℕ) (mem : ℕ → Option QueueNode) (q : Queue)
    → queue_create tmp mem ≡ some q
    → IsQueue q []
unfolding queue_create
queue_create-IsQueue tmp mem q e = ground arith

last-snoc : (xs : Cells) (t d : ℕ) → last (xs ++ (t, d) ∷ []) ≡ t
last-snoc [] t d = refl
last-snoc (x ∷ []) t d = refl
last-snoc (x ∷ y ∷ xs) t d = last-snoc (y ∷ xs) t d

-- The run of `queue_enqueue` on a queue that is not empty.
enqueue_behind :
    (t d : ℕ) (q : Queue) (n : QueueNode)
    → q.lock ≡ false
    → (t == null) ≡ false
    → (q.rear == null) ≡ false
    → write q.mem t (some (node d null)) q.rear ≡ some n
    → queue_enqueue t d q
      ≡ ok tt (record q {
        mem = write (write q.mem t (some (node d null))) q.rear (some (record n { next = t }));
        rear = t;
        count = add64 q.count 1;
        lock = false;
      })
unfolding queue_enqueue
enqueue_behind t d q n unlocked t0 r0 at = rw (unlocked, t0, r0, r0, at, r0)

-- The run of `queue_deqeueue` when a node stays behind.
dequeue_ahead :
    (q : Queue) (d r : ℕ)
    → (q.count == 0) ≡ false
    → q.lock ≡ false
    → (q.front == null) ≡ false
    → q.mem q.front ≡ some (node d r)
    → (r == null) ≡ false
    → queue_deqeueue q
      ≡ ok d (record q {
        mem = write q.mem q.front none;
        front = r;
        count = sub64 q.count 1;
        lock = false;
      })
unfolding queue_deqeueue
dequeue_ahead q d r c0 unlocked f0 at r0 = rw (c0, unlocked, f0, at, r0)

-- `queue_enqueue` into memory that `kmalloc` has just handed out puts the item behind all others,
-- and releases the lock.
pub queue_enqueue-IsQueue :
    (t d : ℕ) (q : Queue) (xs : Cells)
    → IsQueue q xs
    → t ≢ null
    → q.mem t ≡ none
    → length xs + 1 < u64
    → (q' : Queue) × (queue_enqueue t d q ≡ ok tt q') × IsQueue q' (xs ++ (t, d) ∷ [])
unfolding queue_enqueue
queue_enqueue-IsQueue t d q [] is nt unused few = (
  record q {
    mem = write q.mem t (some (node d null));
    front = t;
    rear = t;
    count = 1;
    lock = false;
  },
  ground arith,
  record {
    chain = (refl, nt, refl, (null, ground arith, refl));
    rear = refl;
    count = refl;
    lock = refl;
  },
)
queue_enqueue-IsQueue t d q (x ∷ xs) is nt unused few =
    let out = has_of_none q.mem t q.front (x ∷ xs) is.chain unused in
    let m : ℕ → Option QueueNode = write q.mem t (some (node d null)) in
    let kept = Chain-write q.mem t (some (node d null)) q.front (x ∷ xs) is.chain out in
    let (n, found, nn, ch) = Chain-snoc m t d q.front x xs kept nt (ground arith) out in
    let at : m q.rear ≡ some n = rw is.rear found in
    let t0 : (t == null) ≡ false = ground arith in
    let r0 : (q.rear == null) ≡ false = ground (arith, is.rear) in
    (
      record q {
        mem = write m q.rear (some (record n { next = t }));
        rear = t;
        count = add64 q.count 1;
        lock = false;
      },
      enqueue_behind t d q n is.lock t0 r0 at,
      record {
        chain =
            subst
              (λ r.
                Chain (write m r (some (record n { next = t }))) q.front ((x ∷ xs) ++ (t, d) ∷ []))
              (sym is.rear) ch;
        rear = sym (last-snoc (x ∷ xs) t d);
        count = omega (arith, is.count, length-append {0} (x ∷ xs) ((t, d) ∷ []));
        lock = refl;
      },
    )

-- `queue_deqeueue` of an empty queue returns the null pointer and changes nothing.
pub queue_deqeueue-empty : (q : Queue) → IsQueue q [] → queue_deqeueue q ≡ ok null q
unfolding queue_deqeueue
queue_deqeueue-empty q is = rw is.count

-- `queue_deqeueue` returns the item that has waited longest, frees its node, leaves the others in
-- their order, and releases the lock.
pub queue_deqeueue-IsQueue :
    (q : Queue) (a d : ℕ) (xs : Cells)
    → IsQueue q ((a, d) ∷ xs)
    → length xs + 1 < u64
    → (q' : Queue) × (queue_deqeueue q ≡ ok d q') × (q'.mem a ≡ none) × IsQueue q' xs
unfolding queue_deqeueue
queue_deqeueue-IsQueue q a d [] is few =
    let (e, ne, fresh, (r, at, rest)) = is.chain in
    let c0 : (q.count == 0) ≡ false = ground (arith, is.count) in
    let a0 : (q.front == null) ≡ false = ground arith in
    let here : q.mem q.front ≡ some (node d r) = rw e at in
    (
      record q {
        mem = write q.mem q.front none;
        front = null;
        rear = null;
        count = sub64 q.count 1;
        lock = false;
      },
      rw (c0, is.lock, a0, here, rest),
      ground arith,
      record { chain = refl; rear = refl; count = omega (arith, is.count); lock = refl },
    )
queue_deqeueue-IsQueue q a d (y ∷ xs) is few =
    let (e, ne, fresh, (r, at, rest)) = is.chain in
    let c0 : (q.count == 0) ≡ false = ground (arith, is.count) in
    let a0 : (q.front == null) ≡ false = ground arith in
    let r0 : (r == null) ≡ false = ground (arith, rest.0, rest.1) in
    let here : q.mem q.front ≡ some (node d r) = rw e at in
    (
      record q { mem = write q.mem q.front none; front = r; count = sub64 q.count 1; lock = false },
      dequeue_ahead q d r c0 is.lock a0 here r0,
      ground arith,
      record {
        chain =
            Chain-write q.mem q.front none r (y ∷ xs) rest
              (subst (λ p. has p (y ∷ xs) ≡ false) (sym e) fresh);
        rear = is.rear;
        count = omega (arith, is.count);
        lock = refl;
      },
    )

-- A history of calls that returned, each enqueue with memory that was free: the items that entered,
-- the items that left, in order, and the queue at the end.
pub data History : Queue → List ℕ → List ℕ → Queue → Type 0 where
  now : {q : Queue} → History q [] [] q
  enqueued :
      {q q' r : Queue} {ins outs : List ℕ} (t d : ℕ)
      → t ≢ null
      → q.mem t ≡ none
      → queue_enqueue t d q ≡ ok tt q'
      → History q' ins outs r
      → History q (d ∷ ins) outs r
  dequeued :
      {q q' r : Queue} {ins outs : List ℕ} (d : ℕ)
      → q.count ≢ 0
      → queue_deqeueue q ≡ ok d q'
      → History q' ins outs r
      → History q ins (d ∷ outs) r

ok-injective : {A : Type 0} {a b : A} {q r : Queue} → ok a q ≡ ok b r → (a ≡ b) × (q ≡ r)
ok-injective e = (cc, cc)

pub items-append : (xs : Cells) (t d : ℕ) → items (xs ++ (t, d) ∷ []) ≡ items xs ++ d ∷ []
items-append [] t d = refl
items-append (x ∷ xs) t d = ap (λ l. x.1 ∷ l) (items-append xs t d)

-- Whatever the interleaving of enqueues and dequeues, the items that have left, followed by those
-- still in the queue, are the items that were there, followed by those that entered, in order.
pub History-fifo :
    {q r : Queue} {ins outs : List ℕ} (xs : Cells)
    → IsQueue q xs
    → History q ins outs r
    → length xs + length ins + 1 < u64
    → (ys : Cells) × IsQueue r ys × (items xs ++ ins ≡ outs ++ items ys)
History-fifo xs is now few = (xs, is, append-nil (items xs))
History-fifo {q} xs is (enqueued {q' = s} {ins} {outs} t d nt unused run rest) few =
    let (q', e, is') = queue_enqueue-IsQueue t d q xs is nt unused (omega arith) in
    let same : q' ≡ s = (ok-injective (sym e ∙ run)).1 in
    let (ys, isr, eq) =
      History-fifo (xs ++ (t, d) ∷ []) (subst (λ z. IsQueue z (xs ++ (t, d) ∷ [])) same is') rest
        (omega (arith, length-append {0} xs ((t, d) ∷ []))) in
    (
      ys,
      isr,
      sym (append_assoc (items xs) (d ∷ []) ins)
          ∙ ap (λ l. l ++ ins) (sym (items-append xs t d))
          ∙ eq,
    )
History-fifo [] is (dequeued d some_left run rest) few = absurd (some_left is.count)
History-fifo {q} ((a, v) ∷ xs) is (dequeued {q' = s} {ins} {outs} d some_left run rest) few =
    let (q', e, _, is') = queue_deqeueue-IsQueue q a v xs is (omega arith) in
    let (item, same) = ok-injective (sym e ∙ run) in
    let (ys, isr, eq) = History-fifo xs (subst (λ z. IsQueue z xs) same is') rest (omega arith) in
    (ys, isr, ap₂ ◌∷◌ item eq)
