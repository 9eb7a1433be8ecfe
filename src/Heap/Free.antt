-- ===== src/Heap/Free.antt =====
-- `kfree` and `heap_init` of kernel/src/mem/heap.c.
use omega_os.Base.{
  ℕ, ◌+◌, ◌^◌, ◌<◌, ◌≡◌, ◌≢◌, refl, true, false, not, ◌==◌, put_at, put_other, arith, Bool-cases,
  inl, inr, sub64,
}
use omega_os.Base.Run.{ok, panicked}
use omega_os.Heap.{
  Heap, null, header_size, dlist_init, dlist_insert_after, dlist_push, memory_chunk_size,
  memory_chunk_slot, memory_chunk_init, halvings, push_free, free_chunk, kfree, heap_init,
}
use omega_os.Heap.Alloc.{IsStocked}

-- A chunk that is given back by itself: it is not in use, is the first of the slot of its size, and
-- the lock is free.
pub record GivenBack (s : Heap) (chunk : ℕ) (s' : Heap) : Type 0 where
  pub unused : s'.used chunk ≡ 0
  pub others : (c : ℕ) → c ≢ chunk → s'.used c ≡ s.used c
  pub listed : s'.free_chunks (memory_chunk_slot (memory_chunk_size chunk s)) ≡ chunk
  pub size : memory_chunk_size chunk s' ≡ memory_chunk_size chunk s
  pub unlocked : s'.lock ≡ false

kfree_runs :
    (s : Heap) (chunk : ℕ)
    → s.lock ≡ false
    → chunk + header_size < 2 ^ 64
    → s.used chunk ≢ 0
    → kfree (chunk + header_size) s
      ≡ ok tt (record (free_chunk chunk (record s { lock = true })) { lock = false })
unfolding kfree
kfree_runs s chunk unlocked small in_use =
    let e : (chunk + header_size == null) ≡ false = ground arith in
    let at : sub64 (chunk + header_size) header_size ≡ chunk = omega arith in
    let u : not (s.used chunk == 0) ≡ true = ground (arith, in_use) in rw (e, unlocked, at, u) refl

kfree_twice :
    (s : Heap) (chunk : ℕ)
    → s.lock ≡ false
    → chunk + header_size < 2 ^ 64
    → s.used chunk ≡ 0
    → kfree (chunk + header_size) s ≡ panicked
unfolding kfree
kfree_twice s chunk unlocked small unused =
    let e : (chunk + header_size == null) ≡ false = ground arith in
    let at : sub64 (chunk + header_size) header_size ≡ chunk = omega arith in
    rw (e, unlocked, at, unused) refl

free_chunk-GivenBack :
    (s : Heap) (chunk : ℕ)
    → s.used (s.all chunk).next ≢ 0
    → s.used (s.all chunk).prev ≢ 0
    → GivenBack s chunk (record (free_chunk chunk (record s { lock = true })) { lock = false })
unfolding free_chunk push_free dlist_push memory_chunk_size
free_chunk-GivenBack s chunk next prev =
    let n : (s.used (s.all chunk).next == 0) ≡ false = ground (arith, next) in
    let p : (s.used (s.all chunk).prev == 0) ≡ false = ground (arith, prev) in
    rw (n, p)
      (record {
        unused = put_at s.used chunk 0;
        others = λ c ne. put_other s.used chunk 0 c ne;
        listed = put_at s.free_chunks (memory_chunk_slot (memory_chunk_size chunk s)) chunk;
        size = refl;
        unlocked = refl;
      })

-- `kfree` of a block whose chunk is in use, between two chunks that are in use: it returns, with the
-- lock free; the chunk keeps its size, is the first of the slot of that size and not in use, every
-- other chunk is in use or not as before, and freeing the block once more panics.
pub kfree-GivenBack :
    (s : Heap) (chunk : ℕ)
    → s.lock ≡ false
    → chunk + header_size < 2 ^ 64
    → s.used chunk ≢ 0
    → s.used (s.all chunk).next ≢ 0
    → s.used (s.all chunk).prev ≢ 0
    → (s' : Heap) × (kfree (chunk + header_size) s ≡ ok tt s')
      × GivenBack s chunk s'
      × (kfree (chunk + header_size) s' ≡ panicked)
kfree-GivenBack s chunk unlocked small in_use next prev =
    let s' : Heap = record (free_chunk chunk (record s { lock = true })) { lock = false } in
    let back : GivenBack s chunk s' = free_chunk-GivenBack s chunk next prev in
    (
      s',
      kfree_runs s chunk unlocked small in_use,
      back,
      kfree_twice s' chunk back.unlocked small back.unused,
    )

-- After `heap_init` every slot holds chunks of its size.
pub heap_init-IsStocked : (s : Heap) → ((n : ℕ) → s.free_chunks n ≡ null) → IsStocked (heap_init s)
unfolding heap_init push_free dlist_push memory_chunk_size memory_chunk_slot memory_chunk_init
    halvings dlist_insert_after dlist_init
heap_init-IsStocked s empty n few there = elim (Bool-cases (n == 21)) [
  | inl e ↦ let same : n ≡ 21 = ground arith in rw same (omega arith, omega arith)
  | inr e ↦ absurd (there (rw e (empty n)))
]
