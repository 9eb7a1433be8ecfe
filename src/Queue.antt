-- ===== src/Queue.antt =====
-- The locked queue of kernel/src/misc/queue.c over an explicit memory of nodes, with the lock of
-- kernel/src/arch/lock.c.
pub mod Chain
pub mod Ops
pub mod Remove
mod Tests
use omega_os.Base.{
  ℕ, zero, suc, ◌+◌, ◌-◌, ◌%◌, ◌^◌, Bool, true, false, Option, none, some, ◌==◌, if◌then◌else◌,
  add64, sub64,
}
use omega_os.Base.Run.{Run, ok, fault, deadlock, out_of_fuel, Cmd, pure, ◌>>=◌, ◌>>◌, gets, modify}

abbrev pub null : ℕ
null = 0

-- `QueueNode_t`.
pub record QueueNode : Type 0 where
  pub item : ℕ
  pub next : ℕ

abbrev pub node : ℕ → ℕ → QueueNode
node d q = record { item = d; next = q }

-- A `Queue_t` and the nodes in memory; an address without a node is not allocated.
pub record Queue : Type 0 where
  pub mem : ℕ → Option QueueNode
  pub front : ℕ
  pub rear : ℕ
  pub count : ℕ
  pub lock : Bool

abbrev pub write : (ℕ → Option QueueNode) → ℕ → Option QueueNode → ℕ → Option QueueNode
write m p c a = if a == p then c else m a

pub load : ℕ → Cmd Queue QueueNode
load p q = if p == null then fault else elim (q.mem p) [ none ↦ fault | some n ↦ ok n q ]

-- A write through `p` into memory that was just allocated, and one into a node.
pub store : ℕ → QueueNode → Cmd Queue (Unit {0})
store p n q = if p == null then fault else ok tt (record q { mem = write q.mem p (some n) })

pub set_next : ℕ → ℕ → Cmd Queue (Unit {0})
unfolding load store
set_next p next = do n ← load p; store p (record n { next = next })

pub free : ℕ → Cmd Queue (Unit {0})
free p q = ok tt (record q { mem = write q.mem p none })

pub lock_acquire : Cmd Queue (Unit {0})
lock_acquire q = if q.lock then deadlock else ok tt (record q { lock = true })

pub lock_release : Cmd Queue (Unit {0})
lock_release q = ok tt (record q { lock = false })

-- `queue_create` on the memory as it is; `tmp` is what `kmalloc` returns.
pub queue_create : (tmp : ℕ) → (ℕ → Option QueueNode) → Option Queue
queue_create tmp mem =
    if tmp == null
    then none
    else some (record { mem = mem; front = 0; rear = 0; count = 0; lock = false })

-- `tmp` is what `kmalloc` returns.
pub queue_enqueue : (tmp item : ℕ) → Cmd Queue (Unit {0})
unfolding lock_acquire lock_release store set_next
queue_enqueue tmp item = do
  lock_acquire
  store tmp (node item null)
  rear ← gets (λ q. q.rear)
  if rear == null
      then modify (λ q. record q { front = tmp; rear = tmp })
      else (do set_next rear tmp; modify (λ q. record q { rear = tmp }))
  modify (λ q. record q { count = add64 q.count 1 })
  lock_release

-- `queue_deqeueue`, in the source's spelling.
pub queue_deqeueue : Cmd Queue ℕ
unfolding lock_acquire lock_release load free
queue_deqeueue = do
  count ← gets (λ q. q.count)
  if count == 0 then pure null else (do
    lock_acquire
    tmp ← gets (λ q. q.front)
    n ← load tmp
    modify (λ q. record q { front = n.next })
    front ← gets (λ q. q.front)
    if front == null then modify (λ q. record q { front = null; rear = null }) else pure tt
    free tmp
    modify (λ q. record q { count = sub64 q.count 1 })
    lock_release
    pure n.item)

-- The loop of `queue_remove`. It releases the lock only where it finds the item.
pub remove_loop : (fuel tmp prev item : ℕ) → Cmd Queue (Unit {0})
remove_loop zero tmp prev item = λ q. out_of_fuel
remove_loop (suc fuel) tmp prev item = if tmp == null then pure tt else (do
  n ← load tmp
  if n.item == item
      then (do
        if prev == null then modify (λ q. record q { front = n.next }) else set_next prev n.next
        modify (λ q. record q { count = sub64 q.count 1 })
        free tmp
        lock_release)
      else remove_loop fuel n.next tmp item)

-- `queue_remove` with a round of fuel for each node and one for the end.
pub queue_remove : (fuel item : ℕ) → Cmd Queue (Unit {0})
unfolding lock_acquire lock_release load free set_next remove_loop
queue_remove fuel item = do
  lock_acquire
  front ← gets (λ q. q.front)
  remove_loop fuel front null item
