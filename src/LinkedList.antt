-- ===== src/LinkedList.antt =====
-- The doubly linked list: kernel/src/misc/list.c and kernel/include/misc/list.h.
pub mod Copy
pub mod Links
pub mod Walk
mod Tests
use omega_os.Base.{
  ℕ, zero, suc, ◌+◌, ◌-◌, ◌%◌, ◌^◌, Bool, true, false, not, Option, none, some, ltb, ◌==◌,
  if◌then◌else◌, add64, sub64, List, [], ◌∷◌,
}
use omega_os.Base.Run.{Run, ok, fault, out_of_fuel, Cmd, pure, ◌>>=◌, ◌>>◌, gets, modify}

abbrev pub null : ℕ
null = 0

pub record ListNode : Type 0 where
  pub next : ℕ
  pub prev : ℕ
  pub value : ℕ

-- The memory of the nodes by address, and a `list_t`.
pub record LinkedList : Type 0 where
  pub mem : ℕ → Option ListNode
  pub head : ℕ
  pub tail : ℕ
  pub length : ℕ

abbrev pub write : (ℕ → Option ListNode) → ℕ → Option ListNode → ℕ → Option ListNode
write m a n b = if b == a then n else m b

-- A read through the null pointer or of memory that holds no node is a fault.
unfoldable pub load : ℕ → Cmd LinkedList ListNode
load a l = if a == null then fault else elim (l.mem a) [ none ↦ fault | some n ↦ ok n l ]

unfoldable pub store : ℕ → ListNode → Cmd LinkedList (Unit {0})
store a n l = if a == null then fault else ok tt (record l { mem = write l.mem a (some n) })

unfoldable pub set_next : (a next : ℕ) → Cmd LinkedList (Unit {0})
set_next a next = do n ← load a; store a (record n { next = next })

unfoldable pub set_prev : (a prev : ℕ) → Cmd LinkedList (Unit {0})
set_prev a prev = do n ← load a; store a (record n { prev = prev })

unfoldable pub free : ℕ → Cmd LinkedList (Unit {0})
free a l = ok tt (record l { mem = write l.mem a none })

unfoldable pub list_append : (node : ℕ) → Cmd LinkedList (Unit {0})
list_append node = do
  set_next node null
  tail ← gets (λ l. l.tail)
  if tail == null
      then (do modify (λ l. record l { head = node }); set_prev node null)
      else (do set_next tail node; set_prev node tail)
  modify (λ l. record l { tail = node })
  modify (λ l. record l { length = add64 l.length 1 })

-- `node` is what `kmalloc` returns. The result is `list->length - 1` as an `int`, or -1.
unfoldable pub list_insert : (node item : ℕ) → Cmd LinkedList ℕ
list_insert node item = if node == null then pure (2 ^ 32 - 1) else (do
  store node (record { next = null; prev = null; value = item })
  list_append node
  gets (λ l. sub64 l.length 1 % 2 ^ 32))

unfoldable pub list_append_after : (before node : ℕ) → Cmd LinkedList (Unit {0})
list_append_after before node = do
  head ← gets (λ l. l.head)
  tail ← gets (λ l. l.tail)
  if tail == null
      then list_append node
      else if before == null
      then (do
        set_next node head
        set_prev head node
        modify (λ l. record l { head = node })
        modify (λ l. record l { length = add64 l.length 1 }))
      else (do
        if before == tail
            then modify (λ l. record l { tail = node })
            else (do n ← load before; set_prev n.next node; set_next node n.next)
        set_prev node before
        set_next before node
        modify (λ l. record l { length = add64 l.length 1 }))

unfoldable pub list_insert_after : (node before item : ℕ) → Cmd LinkedList (Unit {0})
list_insert_after node before item = do
  store node (record { next = null; prev = null; value = item })
  list_append_after before node

-- `out` is what `kmalloc` returns, and is not tested before the fields are written.
unfoldable pub list_create : (out : ℕ) → (ℕ → Option ListNode) → Run LinkedList ℕ
list_create out mem =
    if out == null
    then fault
    else ok out (record { mem = mem; head = null; tail = null; length = 0 })

-- The loop of `list_find`, which returns the node or the null pointer.
unfoldable pub find_from : (fuel item value : ℕ) → Cmd LinkedList ℕ
find_from zero item value = λ l. out_of_fuel
find_from (suc fuel) item value =
    if item == null
    then pure null
    else (do n ← load item; if n.value == value then pure item else find_from fuel n.next value)

unfoldable pub list_find : (fuel value : ℕ) → Cmd LinkedList ℕ
list_find fuel value = do head ← gets (λ l. l.head); find_from fuel head value

-- The loop of `list_find_index` and `list_remove` with `i` steps left.
unfoldable pub advance : (i n : ℕ) → Cmd LinkedList ℕ
advance zero n = pure n
advance (suc i) n = do node ← load n; advance i node.next

unfoldable pub list_find_index : (index : ℕ) → Cmd LinkedList ℕ
list_find_index index = do
  length ← gets (λ l. l.length)
  head ← gets (λ l. l.head)
  if ltb length index then pure null else advance index head

unfoldable pub list_delete : (node : ℕ) → Cmd LinkedList (Unit {0})
list_delete node = do
  n ← load node
  head ← gets (λ l. l.head)
  if node == head then modify (λ l. record l { head = n.next }) else pure tt
  tail ← gets (λ l. l.tail)
  if node == tail then modify (λ l. record l { tail = n.prev }) else pure tt
  if not (n.prev == null) then set_next n.prev n.next else pure tt
  if not (n.next == null) then set_prev n.next n.prev else pure tt
  set_prev node null
  set_next node null
  modify (λ l. record l { length = sub64 l.length 1 })

unfoldable pub list_remove : (index : ℕ) → Cmd LinkedList (Unit {0})
list_remove index = do
  length ← gets (λ l. l.length)
  head ← gets (λ l. l.head)
  if ltb length index then pure tt else (do n ← advance index head; list_delete n)

unfoldable pub list_pop : Cmd LinkedList ℕ
list_pop = do
  tail ← gets (λ l. l.tail)
  if tail == null then pure null else (do list_delete tail; pure tail)

unfoldable pub list_dequeue : Cmd LinkedList ℕ
list_dequeue = do
  head ← gets (λ l. l.head)
  if head == null then pure null else (do list_delete head; pure head)

-- The loop of `list_copy`, which inserts into the new list the values of the nodes from `node` on;
-- `tmps` is what `kmalloc` returns. The code does not move to the next node.
unfoldable pub copy_from : (fuel node : ℕ) (tmps : ℕ → ℕ) (i : ℕ) → Cmd LinkedList (Unit {0})
copy_from zero node tmps i = λ l. out_of_fuel
copy_from (suc fuel) node tmps i =
    if node == null
    then pure tt
    else (do n ← load node; list_insert (tmps i) n.value; copy_from fuel node tmps (i + 1))

-- The head of the original list is an argument, the new list is the state.
unfoldable pub list_copy : (fuel original : ℕ) (tmps : ℕ → ℕ) → Cmd LinkedList (Unit {0})
list_copy fuel original tmps = copy_from fuel original tmps 0

-- The loop of `list_destroy`, which gives the values that it frees, and that of `list_free`.
unfoldable pub destroy_from : (fuel n : ℕ) → Cmd LinkedList (List ℕ)
destroy_from zero n = λ l. out_of_fuel
destroy_from (suc fuel) n =
    if n == null
    then pure []
    else (do node ← load n; rest ← destroy_from fuel node.next; pure (node.value ∷ rest))

unfoldable pub list_destroy : (fuel : ℕ) → Cmd LinkedList (List ℕ)
list_destroy fuel = do head ← gets (λ l. l.head); destroy_from fuel head

unfoldable pub free_from : (fuel n : ℕ) → Cmd LinkedList (Unit {0})
free_from zero n = λ l. out_of_fuel
free_from (suc fuel) n =
    if n == null then pure tt else (do node ← load n; free n; free_from fuel node.next)

unfoldable pub list_free : (fuel : ℕ) → Cmd LinkedList (Unit {0})
list_free fuel = do head ← gets (λ l. l.head); free_from fuel head

-- The target is the state, and the source a list in the same memory, of which the descriptor is freed.
unfoldable pub list_merge : (head tail length : ℕ) → Cmd LinkedList (Unit {0})
list_merge head tail length = do
  target ← gets (λ l. l)
  if not (target.tail == null)
      then set_next target.tail head
      else modify (λ l. record l { head = head })
  if not (tail == null) then modify (λ l. record l { tail = tail }) else pure tt
  modify (λ l. record l { length = add64 l.length length })
