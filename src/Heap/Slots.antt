-- ===== src/Heap/Slots.antt =====
-- `memory_chunk_slot` of kernel/src/mem/heap.c is the binary logarithm.
use native.Mathlib.Nat.{pow-suc}
use omega_os.Base.{
  ℕ, zero, suc, ◌+◌, ◌-◌, ◌*◌, ◌/◌, ◌%◌, ◌^◌, ◌≤◌, ◌<◌, ◌≡◌, refl, ◌∙◌, ap, true, false, ltb,
  dec_lt, arith,
}
use omega_os.Heap.{halvings, memory_chunk_slot, start_slot, rounded}

abbrev HasBits : (h size : ℕ) → Type 0
HasBits h size = (size < 2 ^ h) × (0 < size → 2 ^ h ≤ 2 * size)

pow_double : (h : ℕ) → 2 ^ suc h ≡ 2 * 2 ^ h
pow_double h = omega (arith, pow-suc)

halvings-zero : (fuel : ℕ) → halvings fuel 0 ≡ 0
unfolding halvings
halvings-zero zero = refl
halvings-zero (suc fuel) = refl

halvings-HasBits : (fuel size : ℕ) → size < 2 ^ fuel → HasBits (halvings fuel size) size
unfolding halvings
halvings-HasBits zero size h = (h, λ pos. omega arith)
halvings-HasBits (suc fuel) size h = elim (dec_lt 0 size) [
  | no n ↦
      let e : ltb 0 size ≡ false = ground arith in
      rw (halvings, e) (omega arith, λ pos. absurd (omega arith))
  | yes p ↦
      let e : ltb 0 size ≡ true = ground arith in
      let (up, down) = halvings-HasBits fuel (size / 2) (omega (arith, pow_double fuel)) in
      let double = pow_double (halvings fuel (size / 2)) in
      rw (halvings, e)
        (
          omega arith,
          λ pos. elim (dec_lt 0 (size / 2)) [
            | yes more ↦ omega (arith, double, down more)
            | no one ↦
                let none_left : halvings fuel (size / 2) ≡ 0 =
                  ap (halvings fuel) (omega arith) ∙ halvings-zero fuel in
                let two : 2 ^ suc (halvings fuel (size / 2)) ≡ 2 = ap (λ h. 2 ^ suc h) none_left in
                omega (arith, two)
          ],
        )
]

halvings-bound : (fuel size : ℕ) → halvings fuel size ≤ fuel
unfolding halvings
halvings-bound zero size = omega arith
halvings-bound (suc fuel) size = ground (arith, halvings-bound fuel (size / 2))

-- `memory_chunk_slot` of a size of 64 bits that is not zero: the size lies between the power of two of
-- the slot and the next one, and there are 64 slots at most.
pub memory_chunk_slot-bounds :
    (size : ℕ)
    → 0 < size
    → size < 2 ^ 64
    → (2 ^ memory_chunk_slot size ≤ size)
      × (size < 2 ^ (memory_chunk_slot size + 1))
      × (memory_chunk_slot size < 64)
unfolding memory_chunk_slot
memory_chunk_slot-bounds size pos small =
    let (up, down) = halvings-HasBits 64 size small in
    let few = halvings-bound 64 size in
    let some_halving : 0 < halvings 64 size = elim (dec_lt 0 (halvings 64 size)) [
      | yes h ↦ h
      | no n ↦
          let none_left : halvings 64 size ≡ 0 = omega arith in
          let one : 2 ^ halvings 64 size ≡ 1 = ap (λ h. 2 ^ h) none_left in
          absurd (omega (arith, one, up))
    ] in
    let k = halvings 64 size - 1 in
    let slot : (halvings 64 size + 2 ^ 32 - 1) % 2 ^ 32 ≡ k = omega arith in
    let whole : 2 ^ halvings 64 size ≡ 2 ^ suc k = ap (λ h. 2 ^ h) (omega arith) in
    let next : 2 ^ (k + 1) ≡ 2 ^ suc k = ap (λ h. 2 ^ h) (omega arith) in
    let double = pow_double k in
    rw slot (omega (arith, whole, double, down pos), omega (arith, whole, next, up), omega arith)

pub rounded-bounds :
    (size : ℕ)
    → size + 3 < 2 ^ 64
    → (size ≤ rounded size) × (16 ≤ rounded size) × (rounded size < 2 ^ 64)
unfolding rounded
rounded-bounds size small = ground arith

-- The chunks of the start slot of a size, and of the slots above it, are big enough.
pub start_slot-fits :
    (size : ℕ) → 16 ≤ size → size < 2 ^ 64 → (size ≤ 2 ^ start_slot size) × (start_slot size ≤ 64)
unfolding start_slot
start_slot-fits size lo small =
    let (down, up, few) = memory_chunk_slot-bounds (size - 1) (omega arith) (omega arith) in
    let e : (memory_chunk_slot (size - 1) + 1) % 2 ^ 32 ≡ memory_chunk_slot (size - 1) + 1 =
      omega arith in
    rw e (omega arith, omega arith)
