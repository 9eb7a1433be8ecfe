-- ===== src/Heap/Tests.antt =====
-- The heap after `heap_init`, and a block of it.
use omega_os.Base.{ℕ, ◌+◌, ◌^◌, ◌≤◌, ◌<◌, ◌≡◌, ◌⊎◌, refl, arith, false}
use omega_os.Base.Run.{ok, panicked}
use omega_os.Heap.{
  Heap, header_size, kmalloc, kfree, heap_init, memory_chunk_slot, memory_chunk_init, push_free,
  dlist_push,
}
use omega_os.Heap.Slots.{memory_chunk_slot-bounds}
use omega_os.Heap.Alloc.{IsStocked, NoChunk, FirstFit, kmalloc-outcome}
use omega_os.Heap.Free.{GivenBack, kfree-GivenBack, heap_init-IsStocked}

abbrev fresh : Heap
fresh = heap_init (record {
  all = λ c. record { next = 0; prev = 0 };
  free = λ c. record { next = 0; prev = 0 };
  used = λ c. 0;
  free_chunks = λ n. 0;
  first = 0;
  last = 0;
  mem = λ a. 0;
  lock = false;
})

memory_chunk_slot-bounds_example :
    (2 ^ memory_chunk_slot 100 ≤ 100)
    × (100 < 2 ^ (memory_chunk_slot 100 + 1))
    × (memory_chunk_slot 100 < 64)
memory_chunk_slot-bounds_example = memory_chunk_slot-bounds 100 (omega arith) (omega arith)

fresh-IsStocked : IsStocked fresh
fresh-IsStocked = heap_init-IsStocked _ (λ n. refl)

fresh_unlocked : fresh.lock ≡ false
unfolding heap_init push_free dlist_push memory_chunk_init
fresh_unlocked = refl

kmalloc-outcome_example :
    (addr : ℕ) × (s' : Heap) × (kmalloc 100 fresh ≡ ok addr s')
    × (NoChunk fresh 100 addr s' ⊎ FirstFit fresh 100 addr s')
kmalloc-outcome_example = kmalloc-outcome fresh 100 fresh-IsStocked fresh_unlocked (omega arith)

-- The only chunk, taken.
abbrev second : ℕ
second = 0xFFFFFFFF80000028

abbrev taken : Heap
taken = record fresh { used = λ c. 1 }

kfree-GivenBack_example :
    (s' : Heap) × (kfree (second + header_size) taken ≡ ok tt s')
    × GivenBack taken second s'
    × (kfree (second + header_size) s' ≡ panicked)
kfree-GivenBack_example =
    kfree-GivenBack taken second fresh_unlocked (omega arith) (omega arith) (omega arith)
      (omega arith)
