-- ===== src/Heap/Alloc.antt =====
-- What `kmalloc` of kernel/src/mem/heap.c gives.
use native.Mathlib.Nat.{pow-le-pow_right}
use omega_os.Base.{
  ℕ, zero, suc, ◌+◌, ◌-◌, ◌^◌, ◌≤◌, ◌<◌, ◌≡◌, ◌≢◌, ◌⊎◌, refl, sym, subst, ap, true, false, Option,
  none, some, leb, ◌==◌, put_at, dec_lt, arith, Bool-cases, Option-cases, inl, inr, add64,
}
use omega_os.Base.Run.{ok}
use omega_os.Heap.{
  Links, Heap, null, header_size, chunk_bytes, num_sizes, dlist_init, dlist_insert_after,
  memory_chunk_init, memory_chunk_size, push_free, pop_free, find_slot, split, take_chunk, rounded,
  start_slot, kmalloc,
}
use omega_os.Heap.Slots.{rounded-bounds, start_slot-fits}

-- A slot of the table holds a chunk of at least its power of two, in front of the next chunk.
abbrev pub IsStocked : Heap → Type 0
IsStocked s =
    (n : ℕ)
    → n < num_sizes
    → s.free_chunks n ≢ null
    → (s.free_chunks n + header_size + 2 ^ n ≤ (s.all (s.free_chunks n)).next)
      × ((s.all (s.free_chunks n)).next < 2 ^ 64)

-- The search for a slot.
abbrev SlotFound : (k n : ℕ) → (ℕ → ℕ) → Option ℕ → Type 0
SlotFound k n free_chunks none = (m : ℕ) → n ≤ m → m < n + k → free_chunks m ≡ null
SlotFound k n free_chunks (some r) = (n ≤ r) × (r < n + k) × (free_chunks r ≢ null)

SlotFound-step :
    (k n : ℕ) (free_chunks : ℕ → ℕ) (o : Option ℕ)
    → free_chunks n ≡ null
    → SlotFound k (n + 1) free_chunks o
    → SlotFound (suc k) n free_chunks o
SlotFound-step k n free_chunks none here h = λ m lo hi. elim (dec_lt n m) [
  | yes p ↦ h m (omega arith) (omega arith)
  | no p ↦ let same : m ≡ n = omega arith in rw same here
]
SlotFound-step k n free_chunks (some r) here (lo, hi, there) = (omega arith, omega arith, there)

find_slot-SlotFound :
    (k n : ℕ) (free_chunks : ℕ → ℕ) → SlotFound k n free_chunks (find_slot k n free_chunks)
unfolding find_slot
find_slot-SlotFound zero n free_chunks = λ m lo hi. absurd (omega arith)
find_slot-SlotFound (suc k) n free_chunks =
    let rest = find_slot-SlotFound k (n + 1) free_chunks in
    elim (Bool-cases (free_chunks n == null)) [
      | inr e ↦ rw (find_slot, e) (omega arith, omega arith, ground arith)
      | inl e ↦
          rw (find_slot, e)
            (SlotFound-step k n free_chunks (find_slot k (n + 1) free_chunks) (ground arith) rest)
    ]

insert_after_next :
    (d1 d2 : ℕ) (m : Links) → d1 ≢ d2 → (dlist_insert_after d1 d2 (dlist_init d2 m) d1).next ≡ d2
unfolding dlist_insert_after dlist_init
insert_after_next d1 d2 m ne =
    let e : (d1 == d2) ≡ false = ground (arith, ne) in
    let f : (d2 == d1) ≡ false = ground (arith, ne) in ground arith

-- A block of `size` bytes in `chunk`: it is big enough, lies inside what the chunk was before, and is
-- in use, and the lock is free.
pub record Allocated (s : Heap) (size chunk : ℕ) (s' : Heap) : Type 0 where
  pub enough : size ≤ memory_chunk_size chunk s'
  pub within : memory_chunk_size chunk s' ≤ memory_chunk_size chunk s
  pub taken : s'.used chunk ≡ 1
  pub unlocked : s'.lock ≡ false

memory_chunk_size-next :
    (chunk : ℕ) (s : Heap)
    → chunk + header_size ≤ (s.all chunk).next
    → (s.all chunk).next < 2 ^ 64
    → memory_chunk_size chunk s ≡ (s.all chunk).next - chunk - header_size
unfolding memory_chunk_size
memory_chunk_size-next chunk s lo hi = omega arith

-- Cutting a chunk: its size is then what was asked for.
split-size :
    (size chunk : ℕ) (s : Heap)
    → chunk + header_size + size < 2 ^ 64
    → leb (add64 size chunk_bytes) (memory_chunk_size chunk s) ≡ true
    → memory_chunk_size chunk (split size chunk s) ≡ size
unfolding split memory_chunk_size push_free memory_chunk_init
split-size size chunk s small cut =
    let chunk2 = add64 (add64 chunk header_size) size in
    let at : chunk2 ≡ chunk + header_size + size = omega arith in
    let next = insert_after_next chunk chunk2 s.all (omega arith) in rw cut (rw next (omega arith))

split_kept :
    (size chunk : ℕ) (s : Heap)
    → leb (add64 size chunk_bytes) (memory_chunk_size chunk s) ≡ false
    → split size chunk s ≡ s
unfolding split
split_kept size chunk s cut = rw cut refl

split-lock : (size chunk : ℕ) (s : Heap) → (split size chunk s).lock ≡ s.lock
unfolding split push_free memory_chunk_init
split-lock size chunk s =
    elim (Bool-cases (leb (add64 size chunk_bytes) (memory_chunk_size chunk s))) [
      | inl e ↦ rw e refl
      | inr e ↦ rw e refl
    ]

split-bounds :
    (size chunk : ℕ) (s : Heap)
    → chunk + header_size + size < 2 ^ 64
    → size ≤ memory_chunk_size chunk s
    → (size ≤ memory_chunk_size chunk (split size chunk s))
      × (memory_chunk_size chunk (split size chunk s) ≤ memory_chunk_size chunk s)
split-bounds size chunk s small fits =
    elim (Bool-cases (leb (add64 size chunk_bytes) (memory_chunk_size chunk s))) [
      | inl e ↦
          let cut = split-size size chunk s small e in (omega (arith, cut), omega (arith, cut))
      | inr e ↦ rw (split_kept size chunk s e) (fits, omega arith)
    ]

module _ (s : Heap) (stocked : IsStocked s) (size : ℕ) where
  stocked-size :
      (n : ℕ)
      → n < num_sizes
      → s.free_chunks n ≢ null
      → 2 ^ n ≤ memory_chunk_size (s.free_chunks n) s
  stocked-size n few there =
      let (lo, hi) = stocked n few there in
      let e = memory_chunk_size-next (s.free_chunks n) s (omega (arith, lo)) hi in
      omega (arith, e, lo)

  take_chunk-Allocated :
      (n : ℕ)
      → n < num_sizes
      → s.free_chunks n ≢ null
      → size ≤ 2 ^ n
      → Allocated s size
          (s.free_chunks n)
          (record (take_chunk size n (record s { lock = true })) { lock = false })
  unfolding take_chunk pop_free memory_chunk_size
  take_chunk-Allocated n few there fits =
      let (lo, hi) = stocked n few there in
      let chunk = s.free_chunks n in
      let t = pop_free n (record s { lock = true }) in
      let bounds : (size ≤ memory_chunk_size chunk (split size chunk t))
          × (memory_chunk_size chunk (split size chunk t) ≤ memory_chunk_size chunk s) =
        split-bounds size chunk t (omega (arith, lo, hi))
          (omega (arith, stocked-size n few there)) in
      record {
        enough = bounds.0;
        within = bounds.1;
        taken = put_at (split size chunk t).used chunk 1;
        unlocked = refl;
      }

-- No chunk of a slot from that of the rounded size on is free, and nothing has changed.
abbrev pub NoChunk : (s : Heap) (size addr : ℕ) (s' : Heap) → Type 0
NoChunk s size addr s' =
    (addr ≡ null)
    × (s' ≡ s)
    × ((m : ℕ) → start_slot (rounded size) ≤ m → m < num_sizes → s.free_chunks m ≡ null)

-- The block behind the header of the first chunk of a slot.
abbrev pub FirstFit : (s : Heap) (size addr : ℕ) (s' : Heap) → Type 0
FirstFit s size addr s' =
    (n : ℕ) × (start_slot (rounded size) ≤ n)
    × (n < num_sizes)
    × (s.free_chunks n ≢ null)
    × (addr ≡ s.free_chunks n + header_size)
    × (size ≤ rounded size)
    × Allocated s (rounded size) (s.free_chunks n) s'

-- `kmalloc` of a size that the rounding does not carry over 64 bits, on a heap that is not locked and
-- whose slots hold chunks of their sizes: it returns, with the lock free. Either it returns the null
-- pointer, changes nothing, and no slot from that of the rounded size on has a chunk; or it returns
-- the address behind the header of the first chunk of such a slot, which then is in use, has at least
-- as many bytes as were asked for, and lies inside what it was.
pub kmalloc-outcome :
    (s : Heap) (size : ℕ)
    → IsStocked s
    → s.lock ≡ false
    → size + 3 < 2 ^ 64
    → (addr : ℕ) × (s' : Heap) × (kmalloc size s ≡ ok addr s')
      × (NoChunk s size addr s' ⊎ FirstFit s size addr s')
unfolding kmalloc
kmalloc-outcome s size stocked unlocked small =
    let (le, least, most) = rounded-bounds size small in
    let (fits, few) = start_slot-fits (rounded size) least most in
    let n0 = start_slot (rounded size) in
    let found = find_slot-SlotFound (num_sizes - n0) n0 s.free_chunks in
    let released : record s { lock = false } ≡ s = ap (λ b. record s { lock = b }) (sym unlocked) in
    elim (Bool-cases (leb num_sizes n0)) [
      | inl e ↦ (
        null,
        record s { lock = false },
        rw (unlocked, e) refl,
        inl (refl, released, λ m lo hi. absurd (ground arith)),
      )
      | inr e ↦ elim (Option-cases (find_slot (num_sizes - n0) n0 s.free_chunks)) [
        | inl none_found ↦
            let h = subst (SlotFound (num_sizes - n0) n0 s.free_chunks) none_found found in
            (
              null,
              record s { lock = false },
              rw (unlocked, e, none_found) refl,
              inl (refl, released, λ m lo hi. h m lo (omega arith)),
            )
        | inr (n, some_found) ↦
            let (lo, hi, there) =
              subst (SlotFound (num_sizes - n0) n0 s.free_chunks) some_found found in
            let inside : n < num_sizes = ground arith in
            let more : 2 ^ n0 ≤ 2 ^ n = pow-le-pow_right (omega arith) lo in
            let (front, end) = stocked n inside there in
            (
              add64 (s.free_chunks n) header_size,
              record (take_chunk (rounded size) n (record s { lock = true })) { lock = false },
              rw (unlocked, e, some_found) refl,
              inr (
                n,
                lo,
                inside,
                there,
                omega (arith, front, end),
                le,
                take_chunk-Allocated s stocked (rounded size) n inside there (omega arith),
              ),
            )
      ]
    ]
