-- ===== src/Queue/Remove.antt =====
-- `queue_remove` of kernel/src/misc/queue.c: what it does to the queue, and to its lock.
use omega_os.Base.{
  ℕ, zero, suc, ◌+◌, ◌<◌, ◌≡◌, ◌≢◌, refl, Bool, true, false, ◌||◌, Option, none, some, List, [],
  ◌∷◌, ◌++◌, arith, ◌==◌, length, length-append, u64, sub64, ◌∙◌, ap, sym, subst,
}
use omega_os.Base.Run.{ok, fault, deadlock}
use omega_os.Queue.{
  Queue, QueueNode, node, write, null, queue_enqueue, queue_deqeueue, queue_remove, remove_loop,
  load, set_next, lock_release, free,
}
use omega_os.Queue.Chain.{Cells, has, Chain, last, items, IsQueue, Chain-write}

abbrev pub contains : ℕ → List ℕ → Bool
contains d [] = false
contains d (x ∷ xs) = (x == d) || contains d xs

-- The loop passes over nodes that hold other items and changes nothing.
remove_loop-absent :
    (fuel p prev d : ℕ) (q : Queue) (xs : Cells)
    → Chain q.mem p xs
    → contains d (items xs) ≡ false
    → length xs < fuel
    → remove_loop fuel p prev d q ≡ ok tt q
unfolding remove_loop load
remove_loop-absent zero p prev d q xs ch out h = absurd (omega arith)
remove_loop-absent (suc fuel) p prev d q [] ch out h = rw ch
remove_loop-absent (suc fuel) p prev d q ((a, v) ∷ xs) (e, ne, fresh, (r, at, rest)) out h =
    let p0 : (p == null) ≡ false = ground arith in
    let here : q.mem p ≡ some (node v r) = rw e at in
    let other : (v == d) ≡ false = ground arith in
    rw (p0, p0, here, other) (remove_loop-absent fuel r p d q xs rest (ground arith) (omega arith))

-- When the item is not in the queue, `queue_remove` returns with the lock still held: the nodes are
-- as they were, but each later call of `queue_enqueue`, and of `queue_deqeueue` on a queue that is
-- not empty, waits for ever.
pub queue_remove-absent :
    (fuel d : ℕ) (q : Queue) (xs : Cells)
    → IsQueue q xs
    → contains d (items xs) ≡ false
    → length xs < fuel
    → let q' : Queue = record q { lock = true } in
      (queue_remove fuel d q ≡ ok tt q')
      × ((t e : ℕ) → queue_enqueue t e q' ≡ deadlock)
      × (q.count ≢ 0 → queue_deqeueue q' ≡ deadlock)
unfolding queue_remove queue_enqueue queue_deqeueue
queue_remove-absent fuel d q xs is out h =
    let run = remove_loop-absent fuel q.front null d (record q { lock = true }) xs is.chain out h in
    (rw (is.lock, run), λ t e. refl, λ ne. ground arith)

-- The cells without the one at `a`.
has-split :
    (b a d : ℕ) (ys zs : Cells)
    → has b (ys ++ (a, d) ∷ zs) ≡ false
    → ((b == a) ≡ false) × (has b (ys ++ zs) ≡ false)
has-split b a d [] zs h = ground arith
has-split b a d (y ∷ ys) zs h = ground (arith, has-split b a d ys zs)

-- What the loop leaves behind the node `prev`, which holds `w`.
pub record Unlinked (m : ℕ → Option QueueNode) (prev w a : ℕ) (all rest : Cells)
    (m' : ℕ → Option QueueNode) : Type 0 where
  p : ℕ
  before : m' prev ≡ some (node w p)
  chain : Chain m' p rest
  freed : m' a ≡ none
  same : (b : ℕ) → (b == prev) ≡ false → has b all ≡ false → m' b ≡ m b

abbrev UnlinkedBy : (fuel p prev w a d : ℕ) → Queue → Cells → Cells → Type 0
UnlinkedBy fuel p prev w a d q all rest =
    (m' : ℕ → Option QueueNode) × (remove_loop fuel p prev d q
      ≡ ok tt (record q { mem = m'; count = sub64 q.count 1; lock = false }))
    × Unlinked q.mem prev w a all rest m'

unlink_here :
    (fuel prev w a d r : ℕ) (q : Queue) (zs : Cells)
    → (prev == null) ≡ false
    → q.mem prev ≡ some (node w a)
    → (a == null) ≡ false
    → (prev == a) ≡ false
    → has prev zs ≡ false
    → has a zs ≡ false
    → q.mem a ≡ some (node d r)
    → Chain q.mem r zs
    → UnlinkedBy (suc fuel) a prev w a d q ((a, d) ∷ zs) zs
unfolding remove_loop load set_next free lock_release
unlink_here fuel prev w a d r q zs p0 before a0 apart out fresh at rest =
    let m1 : ℕ → Option QueueNode = write q.mem prev (some (node w r)) in
    let hit : (d == d) ≡ true = ground arith in
    (
      write m1 a none,
      rw (a0, a0, at, hit, p0, p0, before, p0),
      record {
        p = r;
        before = ground arith;
        chain =
            Chain-write m1 a none r zs (Chain-write q.mem prev (some (node w r)) r zs rest out)
              fresh;
        freed = ground arith;
        same = λ b nb h. ground arith;
      },
    )

-- A round of the loop at a node with another item.
step_over :
    (fuel p prev v d r : ℕ) (q : Queue)
    → (p == null) ≡ false
    → q.mem p ≡ some (node v r)
    → (v == d) ≡ false
    → remove_loop (suc fuel) p prev d q ≡ remove_loop fuel r p d q
unfolding remove_loop load
step_over fuel p prev v d r q p0 here other = rw (p0, p0, here, other)

remove_loop-Unlinked :
    (fuel p prev w a d : ℕ) (q : Queue) (ys zs : Cells)
    → (prev == null) ≡ false
    → q.mem prev ≡ some (node w p)
    → Chain q.mem p (ys ++ (a, d) ∷ zs)
    → has prev (ys ++ (a, d) ∷ zs) ≡ false
    → contains d (items ys) ≡ false
    → length ys < fuel
    → UnlinkedBy fuel p prev w a d q (ys ++ (a, d) ∷ zs) (ys ++ zs)
remove_loop-Unlinked zero p prev w a d q ys zs p0 before ch out absent h = absurd (omega arith)
remove_loop-Unlinked (suc fuel) p prev w a d q [] zs p0 before (e, ne, fresh, (r, at, rest)) out
      absent h =
    subst (λ x. UnlinkedBy (suc fuel) x prev w a d q ((a, d) ∷ zs) zs) (sym e)
      (unlink_here fuel prev w a d r q zs p0 (subst (λ x. q.mem prev ≡ some (node w x)) e before)
        (ground arith) (ground arith) (ground arith) fresh at rest)
remove_loop-Unlinked (suc fuel) p prev w a d q ((b, v) ∷ ys) zs p0 before
      (e, ne, fresh, (r, at, rest)) out absent h =
    let (m', run, u) =
      remove_loop-Unlinked fuel r b v a d q ys zs (ground arith) at rest fresh (ground arith)
        (omega arith) in
    let b0 : (p == null) ≡ false = ground arith in
    let here : q.mem p ≡ some (node v r) = rw e at in
    let other : (v == d) ≡ false = ground arith in
    (
      m',
      step_over fuel p prev v d r q b0 here other ∙ ap (λ x. remove_loop fuel r x d q) e ∙ run,
      record {
        p = p;
        before = u.same prev (ground arith) (ground arith) ∙ before;
        chain = (e, ne, (has-split b a d ys zs fresh).1, (u.p, u.before, u.chain));
        freed = u.freed;
        same = λ c nc hc. u.same c (ground arith) (ground arith);
      },
    )

last-skip : (ys : Cells) (c z : ℕ × ℕ) (zs : Cells) → last (ys ++ c ∷ z ∷ zs) ≡ last (ys ++ z ∷ zs)
last-skip [] c z zs = refl
last-skip (y ∷ []) c z zs = refl
last-skip (y ∷ x ∷ ys) c z zs = last-skip (x ∷ ys) c z zs

-- The first node with item `d`, at `a`, is gone: the others are linked as before, the item is
-- counted off and the lock is free. The rear pointer is not looked at.
pub record Removed (q : Queue) (a : ℕ) (rest : Cells) (q' : Queue) : Type 0 where
  pub chain : Chain q'.mem q'.front rest
  pub freed : q'.mem a ≡ none
  pub rear : q'.rear ≡ q.rear
  pub count : q'.count ≡ length rest
  pub lock : q'.lock ≡ false

remove_first :
    (fuel d r : ℕ) (q : Queue)
    → q.lock ≡ false
    → (q.front == null) ≡ false
    → q.mem q.front ≡ some (node d r)
    → queue_remove (suc fuel) d q
      ≡ ok tt (record q {
        mem = write q.mem q.front none;
        front = r;
        count = sub64 q.count 1;
        lock = false;
      })
unfolding queue_remove
remove_first fuel d r q unlocked f0 at =
    let hit : (d == d) ≡ true = ground arith in rw (unlocked, f0, f0, at, hit)

remove_enters :
    (fuel d : ℕ) (q q' : Queue)
    → q.lock ≡ false
    → remove_loop fuel q.front null d (record q { lock = true }) ≡ ok tt q'
    → queue_remove fuel d q ≡ ok tt q'
unfolding queue_remove
remove_enters fuel d q q' unlocked run = rw (unlocked, run)

-- When the item is in the queue, `queue_remove` unlinks and frees the first node that holds it.
pub queue_remove-Removed :
    (fuel a d : ℕ) (q : Queue) (ys zs : Cells)
    → IsQueue q (ys ++ (a, d) ∷ zs)
    → contains d (items ys) ≡ false
    → length ys < fuel
    → length ys + length zs + 1 < u64
    → (q' : Queue) × (queue_remove fuel d q ≡ ok tt q') × Removed q a (ys ++ zs) q'
queue_remove-Removed zero a d q ys zs is absent h few = absurd (omega arith)
queue_remove-Removed (suc fuel) a d q [] zs is absent h few =
    let (e, ne, fresh, (r, at, rest)) = is.chain in
    (
      record q { mem = write q.mem q.front none; front = r; count = sub64 q.count 1; lock = false },
      remove_first fuel d r q is.lock (ground arith) (rw e at),
      record {
        chain =
            Chain-write q.mem q.front none r zs rest (subst (λ p. has p zs ≡ false) (sym e) fresh);
        freed = ground arith;
        rear = refl;
        count = omega (arith, is.count);
        lock = refl;
      },
    )
queue_remove-Removed (suc fuel) a d q ((b, v) ∷ ys) zs is absent h few =
    let (e, ne, fresh, (r, at, rest)) = is.chain in
    let held : Queue = record q { lock = true } in
    let (m', run, u) =
      remove_loop-Unlinked fuel r b v a d held ys zs (ground arith) at rest fresh (ground arith)
        (omega arith) in
    let f0 : (q.front == null) ≡ false = ground arith in
    let here : q.mem q.front ≡ some (node v r) = rw e at in
    let enters =
      step_over fuel q.front null v d r held f0 here (ground arith)
      ∙ ap (λ x. remove_loop fuel r x d held) e
      ∙ run in
    (
      record q { mem = m'; count = sub64 q.count 1; lock = false },
      remove_enters (suc fuel) d q (record q { mem = m'; count = sub64 q.count 1; lock = false })
          is.lock enters,
      record {
        chain = (e, ne, (has-split b a d ys zs fresh).1, (u.p, u.before, u.chain));
        freed = u.freed;
        rear = refl;
        count =
            omega (arith, is.count, length-append {0} ys ((a, d) ∷ zs), length-append {0} ys zs);
        lock = refl;
      },
    )

-- When the first node that holds the item is not the last one, `queue_remove` releases the lock,
-- frees that node, and leaves the queue of the other nodes in their order.
pub queue_remove-IsQueue :
    (fuel a d : ℕ) (q : Queue) (ys : Cells) (z : ℕ × ℕ) (zs : Cells)
    → IsQueue q (ys ++ (a, d) ∷ z ∷ zs)
    → contains d (items ys) ≡ false
    → length ys < fuel
    → length ys + length (z ∷ zs) + 1 < u64
    → (q' : Queue) × (queue_remove fuel d q ≡ ok tt q')
      × (q'.mem a ≡ none)
      × IsQueue q' (ys ++ z ∷ zs)
queue_remove-IsQueue fuel a d q ys z zs is absent h few =
    let (q', run, r) = queue_remove-Removed fuel a d q ys (z ∷ zs) is absent h few in
    (
      q',
      run,
      r.freed,
      record {
        chain = r.chain;
        rear = r.rear ∙ is.rear ∙ last-skip ys (a, d) z zs;
        count = r.count;
        lock = r.lock;
      },
    )

last-snoc : (ys : Cells) (a d : ℕ) → last (ys ++ (a, d) ∷ []) ≡ a
last-snoc [] a d = refl
last-snoc (x ∷ []) a d = refl
last-snoc (x ∷ y ∷ ys) a d = last-snoc (y ∷ ys) a d

enqueue_faults :
    (t e : ℕ) (q : Queue)
    → q.lock ≡ false
    → (t == null) ≡ false
    → (q.rear == null) ≡ false
    → write q.mem t (some (node e null)) q.rear ≡ none
    → queue_enqueue t e q ≡ fault
unfolding queue_enqueue
enqueue_faults t e q unlocked t0 r0 at = rw (unlocked, t0, r0, r0, at)

Chain-ne_null :
    (m : ℕ → Option QueueNode) (a d p : ℕ) (ys : Cells) → Chain m p (ys ++ (a, d) ∷ []) → a ≢ null
Chain-ne_null m a d p [] ch = ch.1
Chain-ne_null m a d p (y ∷ ys) (e, ne, fresh, (r, at, rest)) = Chain-ne_null m a d r ys rest

-- When the only node that holds the item is the last one, `queue_remove` frees it but leaves the
-- rear pointer at it, so the next `queue_enqueue`, with any memory but that node's, writes through a
-- pointer to freed memory.
pub queue_remove-dangling :
    (fuel a d : ℕ) (q : Queue) (ys : Cells)
    → IsQueue q (ys ++ (a, d) ∷ [])
    → contains d (items ys) ≡ false
    → length ys < fuel
    → length ys + 1 < u64
    → (q' : Queue) × (queue_remove fuel d q ≡ ok tt q')
      × (q'.rear ≡ a)
      × (q'.mem a ≡ none)
      × ((t e : ℕ) → t ≢ null → t ≢ a → queue_enqueue t e q' ≡ fault)
queue_remove-dangling fuel a d q ys is absent h few =
    let (q', run, r) = queue_remove-Removed fuel a d q ys [] is absent h (omega arith) in
    let rear : q'.rear ≡ a = r.rear ∙ is.rear ∙ last-snoc ys a d in
    let ne = Chain-ne_null q.mem a d q.front ys is.chain in
    (
      q',
      run,
      rear,
      r.freed,
      λ t e nt na. enqueue_faults t e q' r.lock (ground arith) (ground arith) (
          subst (λ x. write q'.mem t (some (node e null)) x ≡ none) (sym rear)
            (ground (arith, r.freed))),
    )
