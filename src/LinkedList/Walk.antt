-- ===== src/LinkedList/Walk.antt =====
-- The walks of kernel/src/misc/list.c along the next pointers: `list_find` and `list_destroy`.
use omega_os.Base.{
  ℕ, suc, ◌≡◌, ◌≢◌, refl, false, some, List, [], ◌∷◌, length, ◌==◌, if◌then◌else◌, Bool-cases, inl,
  inr, arith,
}
use omega_os.Base.Run.{ok, and_then, pure}
use omega_os.LinkedList.{
  ListNode, LinkedList, null, load, find_from, list_find, destroy_from, list_destroy,
}
use omega_os.LinkedList.Links.{Nodes, node, Linked, IsList}

-- The address of the first node with the value, or the null pointer.
abbrev pub first_with : (value : ℕ) → Nodes → ℕ
first_with value [] = null
first_with value ((a, v) ∷ xs) = if v == value then a else first_with value xs

abbrev pub values : Nodes → List ℕ
values [] = []
values ((a, v) ∷ xs) = v ∷ values xs

load_at : (a : ℕ) (n : ListNode) (l : LinkedList) → a ≢ null → l.mem a ≡ some n → load a l ≡ ok n l
unfolding load
load_at a n l nz at = let e : (a == null) ≡ false = ground (arith, nz) in rw (e, at) refl

find_from-suc :
    (fuel a value : ℕ) (n : ListNode) (l : LinkedList)
    → a ≢ null
    → l.mem a ≡ some n
    → find_from (suc fuel) a value l
      ≡ (if n.value == value then pure a else find_from fuel n.next value) l
unfolding find_from
find_from-suc fuel a value n l nz at =
    let e : (a == null) ≡ false = ground (arith, nz) in rw (find_from, e, load_at a n l nz at) refl

destroy_from-suc :
    (fuel a : ℕ) (n : ListNode) (l : LinkedList)
    → a ≢ null
    → l.mem a ≡ some n
    → destroy_from (suc fuel) a l
      ≡ and_then (destroy_from fuel n.next l) (λ rest. pure (n.value ∷ rest))
unfolding destroy_from
destroy_from-suc fuel a n l nz at =
    let e : (a == null) ≡ false = ground (arith, nz) in
    rw (destroy_from, e, load_at a n l nz at) refl

find_from-first :
    (value prev p : ℕ) (xs : Nodes) (tail : ℕ) (l : LinkedList)
    → Linked l.mem prev p xs tail
    → find_from (suc (length xs)) p value l ≡ ok (first_with value xs) l
unfolding find_from
find_from-first value prev p [] tail l (e, end) = rw e refl
find_from-first value prev p ((a, v) ∷ xs) tail l (e, nz, fresh, (next, at, rest)) =
    rw (e, find_from-suc (suc (length xs)) a value (node next prev v) l nz at)
      (elim (Bool-cases (v == value)) [
        | inl same ↦ rw same refl
        | inr other ↦ rw (other, find_from-first value a next xs tail l rest) refl
      ])

destroy_from-values :
    (prev p : ℕ) (xs : Nodes) (tail : ℕ) (l : LinkedList)
    → Linked l.mem prev p xs tail
    → destroy_from (suc (length xs)) p l ≡ ok (values xs) l
unfolding destroy_from
destroy_from-values prev p [] tail l (e, end) = rw e refl
destroy_from-values prev p ((a, v) ∷ xs) tail l (e, nz, fresh, (next, at, rest)) =
    rw
      (
        e,
        destroy_from-suc (suc (length xs)) a (node next prev v) l nz at,
        destroy_from-values a next xs tail l rest,
      )
      refl

-- In a list with the invariant, one round for each node and one for the end are enough for
-- `list_find`, which returns the first node with the value, or the null pointer when there is
-- none, and for `list_destroy`, which frees each value once, in the order of the list.
pub list_find-destroy :
    (value : ℕ) (l : LinkedList) (xs : Nodes)
    → IsList l xs
    → (list_find (suc (length xs)) value l ≡ ok (first_with value xs) l)
      × (list_destroy (suc (length xs)) l ≡ ok (values xs) l)
unfolding list_find list_destroy
list_find-destroy value l xs is = (
  find_from-first value null l.head xs l.tail l is.linked,
  destroy_from-values null l.head xs l.tail l is.linked,
)
