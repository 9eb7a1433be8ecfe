-- ===== src/Scheduler/Fifo.antt =====
-- What the scheduler uses of a queue: the interface of kernel/include/misc/queue.h.
use omega_os.Base.{ℕ, ◌+◌, ◌<◌, ◌≡◌, Option, some, List, [], ◌∷◌, ◌++◌, length, u64}
use omega_os.Base.Run.{ok, Cmd}

-- `Holds q xs`: the queue is not locked and holds these items, the oldest first. `Fresh q t`: `t` is
-- what `kmalloc` has returned for a new node.
pub record FifoQueue : Type 1 where
  pub Q : Type 0
  pub Holds : Q → List ℕ → Type 0
  pub Fresh : Q → ℕ → Type 0
  pub count : Q → ℕ
  pub create : (tmp : ℕ) → Option Q
  pub enqueue : (tmp item : ℕ) → Cmd Q (Unit {0})
  pub dequeue : Cmd Q ℕ
  pub remove : (item : ℕ) → Cmd Q (Unit {0})
  pub create-Holds : (tmp : ℕ) (q : Q) → create tmp ≡ some q → Holds q []
  pub count-Holds : (q : Q) (xs : List ℕ) → Holds q xs → count q ≡ length xs
  pub enqueue-Holds :
      (t d : ℕ) (q : Q) (xs : List ℕ)
      → Holds q xs
      → Fresh q t
      → length xs + 1 < u64
      → (q' : Q) × (enqueue t d q ≡ ok tt q') × Holds q' (xs ++ d ∷ [])
  pub dequeue-Holds :
      (q : Q) (x : ℕ) (xs : List ℕ)
      → Holds q (x ∷ xs)
      → length xs + 1 < u64
      → (q' : Q) × (dequeue q ≡ ok x q') × Holds q' xs
