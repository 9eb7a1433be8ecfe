-- ===== src/Heap.antt =====
-- The kernel heap: kernel/src/mem/heap.c. A chunk has two doubly linked rings through it, one of all
-- chunks by address and one of the free chunks of its size. The links of the two kinds are two maps by
-- the address of the chunk, so that `CONTAINER` is the identity on them.
pub mod Slots
pub mod Alloc
pub mod Free
mod Tests
use omega_os.Base.{
  ℕ, zero, suc, ◌+◌, ◌-◌, ◌*◌, ◌/◌, ◌%◌, ◌^◌, Bool, true, false, Option, none, some, ltb, leb, ◌==◌,
  if◌then◌else◌, put, add64, sub64, not,
}
use omega_os.Base.Run.{Run, ok, deadlock, Cmd, pure, ◌>>=◌, ◌>>◌, gets, modify, assert}
use omega_os.Strings.{Mem, memset, memcpy}

pub record DList : Type 0 where
  pub next : ℕ
  pub prev : ℕ

abbrev pub Links : Type 0
Links = ℕ → DList

abbrev pub null : ℕ
null = 0

abbrev pub set_next : (d next : ℕ) → Links → Links
set_next d next m = put m d (record (m d) { next = next })

abbrev pub set_prev : (d prev : ℕ) → Links → Links
set_prev d prev m = put m d (record (m d) { prev = prev })

unfoldable pub dlist_init : (d : ℕ) → Links → Links
dlist_init d m = set_prev d d (set_next d d m)

-- The pointers that the code loads before it writes are arguments of the second function.
abbrev pub link_after : (d1 d2 n1 e2 : ℕ) → Links → Links
link_after d1 d2 n1 e2 m = set_prev n1 e2 (set_next e2 n1 (set_prev d2 d1 (set_next d1 d2 m)))

unfoldable pub dlist_insert_after : (d1 d2 : ℕ) → Links → Links
dlist_insert_after d1 d2 m = link_after d1 d2 (m d1).next (m d2).prev m

abbrev pub link_before : (d1 d2 e1 e2 : ℕ) → Links → Links
link_before d1 d2 e1 e2 m = set_prev d1 e2 (set_next e2 d1 (set_prev d2 e1 (set_next e1 d2 m)))

unfoldable pub dlist_insert_before : (d1 d2 : ℕ) → Links → Links
dlist_insert_before d1 d2 m = link_before d1 d2 (m d1).prev (m d2).prev m

-- `d->next->prev = d->prev`, which reads the links after the first write.
abbrev pub unlink_next : (d : ℕ) → Links → Links
unlink_next d m = set_prev (m d).next (m d).prev m

unfoldable pub dlist_remove : (d : ℕ) → Links → Links
dlist_remove d m = set_prev d d (set_next d d (unlink_next d (set_next (m d).prev (m d).next m)))

-- A head pointer and the links.
unfoldable pub dlist_push : (head d2 : ℕ) → Links → ℕ × Links
dlist_push head d2 m = (d2, if head == null then m else dlist_insert_before head d2 m)

-- The element, the head pointer and the links.
unfoldable pub dlist_pop : (head : ℕ) → Links → ℕ × ℕ × Links
dlist_pop head m =
    let d2 = (m head).next in (head, (if head == d2 then null else d2), dlist_remove head m)

unfoldable pub dlist_remove_from : (head d2 : ℕ) → Links → ℕ × Links
dlist_remove_from head d2 m =
    if head == d2 then (let r = dlist_pop head m in (r.1, r.2)) else (head, dlist_remove d2 m)

-- The file's static variables, the chunks' fields, the memory of the blocks, and the lock.
pub record Heap : Type 0 where
  pub all : Links
  pub free : Links
  pub used : ℕ → ℕ
  pub free_chunks : ℕ → ℕ
  pub first : ℕ
  pub last : ℕ
  pub mem : Mem
  pub lock : Bool

abbrev pub num_sizes : ℕ
num_sizes = 32

abbrev pub align : ℕ
align = 4

abbrev pub min_size : ℕ
min_size = 16

abbrev pub header_size : ℕ
header_size = 24

-- `sizeof(Chunk_t)`.
abbrev pub chunk_bytes : ℕ
chunk_bytes = 40

abbrev pub heap_start : ℕ
heap_start = 0xFFFFFFFF80000000

abbrev pub heap_size : ℕ
heap_size = 1024 * 4096

unfoldable pub memory_chunk_init : (chunk : ℕ) → Heap → Heap
memory_chunk_init chunk s = record s {
  all = dlist_init chunk s.all;
  used = put s.used chunk 0;
  free = dlist_init chunk s.free;
}

unfoldable pub memory_chunk_size : (chunk : ℕ) → Heap → ℕ
memory_chunk_size chunk s = sub64 (sub64 (s.all chunk).next chunk) header_size

-- The loop of `memory_chunk_slot`, which counts the halvings: 64 rounds end it.
unfoldable pub halvings : (fuel size : ℕ) → ℕ
halvings zero size = 0
halvings (suc fuel) size = let rest = halvings fuel (size / 2) in if ltb 0 size then suc rest else 0

-- The `int` starts at -1.
unfoldable pub memory_chunk_slot : (size : ℕ) → ℕ
memory_chunk_slot size = (halvings 64 size + 2 ^ 32 - 1) % 2 ^ 32

unfoldable pub remove_free : (chunk : ℕ) → Heap → Heap
remove_free chunk s =
    let n = memory_chunk_slot (memory_chunk_size chunk s) in
    let r = dlist_remove_from (s.free_chunks n) chunk s.free in
    record s { free_chunks = put s.free_chunks n r.0; free = r.1 }

unfoldable pub push_free : (chunk : ℕ) → Heap → Heap
push_free chunk s =
    let n = memory_chunk_slot (memory_chunk_size chunk s) in
    let r = dlist_push (s.free_chunks n) chunk s.free in
    record s { free_chunks = put s.free_chunks n r.0; free = r.1 }

-- Behind the mapping of the heap's pages. The ends are rounded down to the alignment.
unfoldable pub heap_init : Heap → Heap
heap_init s0 =
    let first = (heap_start + align - 1) / align * align in
    let second = first + chunk_bytes in
    let last = (heap_start + heap_size) / align * align - chunk_bytes in
    let chunks = memory_chunk_init last (
      memory_chunk_init second
        (memory_chunk_init first (record s0 { first = first; last = last }))) in
    let linked = record chunks {
      all = dlist_insert_after second last (dlist_insert_after first second chunks.all);
    } in
    push_free second (record linked { used = put (put linked.used first 1) last 1 })

-- `lock_acquire` and `lock_release`.
abbrev pub acquire : Cmd Heap (Unit {0})
acquire s = if s.lock then deadlock else ok tt (record s { lock = true })

abbrev pub release : Cmd Heap (Unit {0})
release s = ok tt (record s { lock = false })

-- The loop of `kmalloc` over the slots, with `k` left.
unfoldable pub find_slot : (k n : ℕ) → (ℕ → ℕ) → Option ℕ
find_slot zero n free_chunks = none
find_slot (suc k) n free_chunks =
    let rest = find_slot k (n + 1) free_chunks in if free_chunks n == null then rest else some n

-- Cuts off what the block does not need.
unfoldable pub split : (size chunk : ℕ) → Heap → Heap
split size chunk s =
    if leb (add64 size chunk_bytes) (memory_chunk_size chunk s)
    then (let chunk2 = add64 (add64 chunk header_size) size in
        let t = memory_chunk_init chunk2 s in
        push_free chunk2 (record t { all = dlist_insert_after chunk chunk2 t.all }))
    else s

-- `DLIST_POP` of slot `n`.
unfoldable pub pop_free : (n : ℕ) → Heap → Heap
pop_free n s =
    let r = dlist_pop (s.free_chunks n) s.free in
    record s { free_chunks = put s.free_chunks n r.1; free = r.2 }

-- `size` after the first lines of `kmalloc`.
unfoldable pub rounded : ℕ → ℕ
rounded size =
    let s = add64 size (align - 1) / align * align in if ltb s min_size then min_size else s

-- The first slot whose chunks are all big enough.
unfoldable pub start_slot : (size : ℕ) → ℕ
start_slot size = (memory_chunk_slot (size - 1) + 1) % 2 ^ 32

unfoldable pub take_chunk : (size n : ℕ) → Heap → Heap
take_chunk size n s =
    let chunk = s.free_chunks n in
    let t = split size chunk (pop_free n s) in record t { used = put t.used chunk 1 }

unfoldable pub kmalloc : (size : ℕ) → Cmd Heap ℕ
kmalloc size0 = do
  let size = rounded size0
  acquire
  let n = start_slot size
  s ← gets (λ s. s)
  if leb num_sizes n
      then (do release; pure null)
      else elim (find_slot (num_sizes - n) n s.free_chunks) [
        | none ↦ (do release; pure null)
        | some n ↦ (do
          modify (take_chunk size n)
          release
          pure (add64 (s.free_chunks n) header_size))
      ]

unfoldable pub kcalloc : (size : ℕ) → Cmd Heap ℕ
kcalloc size = do
  addr ← kmalloc size
  if addr == null
      then pure null
      else (do modify (λ s. record s { mem = memset addr 0 size s.mem }); pure addr)

-- The part of `kfree` that joins the chunk with its neighbours.
unfoldable pub free_chunk : (chunk : ℕ) → Heap → Heap
free_chunk chunk s0 =
    let next = (s0.all chunk).next in
    let prev = (s0.all chunk).prev in
    let s =
      if s0.used next == 0
      then (let t = remove_free next s0 in record t { all = dlist_remove next t.all })
      else s0 in
    if s.used prev == 0
    then (let t = remove_free prev s in
        push_free prev (record t { all = dlist_remove chunk t.all }))
    else push_free chunk (record s { used = put s.used chunk 0; free = dlist_init chunk s.free })

unfoldable pub kfree : (addr : ℕ) → Cmd Heap (Unit {0})
kfree addr = if addr == null then pure tt else (do
  acquire
  let chunk = sub64 addr header_size
  s ← gets (λ s. s)
  assert (not (s.used chunk == 0))
  modify (free_chunk chunk)
  release)

unfoldable pub krealloc : (addr ns : ℕ) → Cmd Heap ℕ
krealloc addr ns = if addr == null then pure null else (do
  acquire
  s ← gets (λ s. s)
  let chunk_size = memory_chunk_size (sub64 addr header_size) s
  release
  ptr ← kmalloc ns
  if ptr == null then pure null else (do
    modify (λ t. record t { mem = memcpy ptr addr chunk_size t.mem })
    kfree addr
    pure ptr))
