-- ===== src/LinkedList/Links.antt =====
-- The invariant of the links of kernel/src/misc/list.c, and the ends of the list.
use omega_os.Base.{
  ℕ, ◌+◌, ◌%◌, ◌^◌, ◌<◌, ◌≡◌, ◌≢◌, refl, sym, ◌∙◌, ap, Bool, true, false, ◌||◌, Option, some, List,
  [], ◌∷◌, ◌++◌, length, length-append, ◌==◌, Bool-cases, inl, inr, arith, add64, sub64, u64,
}
use omega_os.Base.Run.{Run, ok, and_then}
use omega_os.LinkedList.{
  ListNode, LinkedList, null, write, load, store, set_next, set_prev, list_append, list_insert,
}

-- Address and value of each node.
abbrev pub Nodes : Type 0
Nodes = List (ℕ × ℕ)

abbrev pub has : ℕ → Nodes → Bool
has a [] = false
has a ((b, v) ∷ xs) = (a == b) || has a xs

abbrev pub node : (next prev value : ℕ) → ListNode
node next prev value = record { next = next; prev = prev; value = value }

-- From `p` on the nodes `xs` follow one another, the first behind `prev`, the last at `tail`.
abbrev pub Linked : (ℕ → Option ListNode) → (prev p : ℕ) → Nodes → (tail : ℕ) → Type 0
Linked m prev p [] tail = (p ≡ null) × (tail ≡ prev)
Linked m prev p ((a, v) ∷ xs) tail =
    (p ≡ a)
    × (a ≢ null)
    × (has a xs ≡ false)
    × ((next : ℕ) × (m a ≡ some (node next prev v)) × Linked m a next xs tail)

pub record IsList (l : LinkedList) (xs : Nodes) : Type 0 where
  pub linked : Linked l.mem null l.head xs l.tail
  pub count : l.length ≡ length xs

-- A write elsewhere.
Linked-write :
    (m : ℕ → Option ListNode) (t : ℕ) (c : Option ListNode) (prev p : ℕ) (xs : Nodes) (tail : ℕ)
    → Linked m prev p xs tail
    → has t xs ≡ false
    → Linked (write m t c) prev p xs tail
Linked-write m t c prev p [] tail h out = h
Linked-write m t c prev p ((a, v) ∷ xs) tail (e, ne, fresh, (next, at, rest)) out =
    (e, ne, fresh, (next, ground arith, Linked-write m t c a next xs tail rest (ground arith)))

has-append : (a : ℕ) (xs ys : Nodes) → has a (xs ++ ys) ≡ (has a xs || has a ys)
has-append a [] ys = refl
has-append a (x ∷ xs) ys = ground (arith, has-append a xs ys)

differ : (a b : ℕ) (xs : Nodes) → has a xs ≡ false → has b xs ≡ true → (a == b) ≡ false
differ a b xs out inside = elim (Bool-cases (a == b)) [
  | inl e ↦ let same : a ≡ b = ground arith in cc
  | inr e ↦ e
]

-- The last node, and a new node linked behind it.
Linked-snoc :
    (m : ℕ → Option ListNode) (t d prev p : ℕ) (x : ℕ × ℕ) (xs : Nodes) (tail : ℕ)
    → Linked m prev p (x ∷ xs) tail
    → t ≢ null
    → has t (x ∷ xs) ≡ false
    → (n : ListNode) × (m tail ≡ some n)
      × (tail ≢ null)
      × (has tail (x ∷ xs) ≡ true)
      × Linked
          (write (write m tail (some (record n { next = t }))) t (some (node null tail d)))
          prev
          p
          ((x ∷ xs) ++ (t, d) ∷ [])
          t
Linked-snoc m t d prev p (a, v) [] tail (e, ne, fresh, (next, at, (end, last))) nt out = (
  node next prev v,
  ground arith,
  ground arith,
  ground arith,
  (e, ne, ground arith, (t, ground arith, (refl, nt, refl, (null, ground arith, (refl, refl))))),
)
Linked-snoc m t d prev p (a, v) (y ∷ ys) tail (e, ne, fresh, (next, at, rest)) nt out =
    let (n, found, nn, inside, linked) =
      Linked-snoc m t d a next y ys tail rest nt (ground arith) in
    let apart : (a == tail) ≡ false = differ a tail (y ∷ ys) fresh inside in
    (
      n,
      found,
      nn,
      ground arith,
      (e, ne, ground (arith, has-append a (y ∷ ys) ((t, d) ∷ [])), (next, ground arith, linked)),
    )

-- What `list_insert` gives: the index of the new node, as an `int`, and the list with it.
abbrev pub Inserted : (t item : ℕ) (xs : Nodes) → Run LinkedList ℕ → Type 0
Inserted t item xs r =
    (l' : LinkedList) × (r ≡ ok (length xs % 2 ^ 32) l') × IsList l' (xs ++ (t, item) ∷ [])

write_at : (m : ℕ → Option ListNode) (a : ℕ) (c : Option ListNode) → write m a c a ≡ c
write_at m a c = ground arith

write_other :
    (m : ℕ → Option ListNode) (a : ℕ) (c : Option ListNode) (b : ℕ) → b ≢ a → write m a c b ≡ m b
write_other m a c b ne = ground (arith, ne)

set_next_at :
    (a next : ℕ) (n : ListNode) (l : LinkedList)
    → a ≢ null
    → l.mem a ≡ some n
    → set_next a next l ≡ ok tt (record l { mem = write l.mem a (some (record n { next = next })) })
unfolding set_next load store
set_next_at a next n l nz at =
    let e : (a == null) ≡ false = ground (arith, nz) in rw (e, at, e) refl

set_prev_at :
    (a prev : ℕ) (n : ListNode) (l : LinkedList)
    → a ≢ null
    → l.mem a ≡ some n
    → set_prev a prev l ≡ ok tt (record l { mem = write l.mem a (some (record n { prev = prev })) })
unfolding set_prev load store
set_prev_at a prev n l nz at =
    let e : (a == null) ≡ false = ground (arith, nz) in rw (e, at, e) refl

append_first :
    (t d : ℕ) (l : LinkedList)
    → t ≢ null
    → l.tail ≡ null
    → (l' : LinkedList) × (list_append t
          (record l { mem = write l.mem t (some (node null null d)) })
        ≡ ok tt l')
      × (l'.length ≡ add64 l.length 1)
      × Linked l'.mem null l'.head ((t, d) ∷ []) l'.tail
unfolding list_append
append_first t d l nt empty =
    let no_tail : (l.tail == null) ≡ true = ground (arith, empty) in
    let m0 = write l.mem t (some (node null null d)) in
    let m1 = write m0 t (some (node null null d)) in
    let m2 = write m1 t (some (node null null d)) in
    let l0 : LinkedList = record l { mem = m0 } in
    let l1 : LinkedList = record l { mem = m1; head = t } in
    (
      record l { mem = m2; head = t; tail = t; length = add64 l.length 1 },
      rw (set_next_at t null (node null null d) l0 nt (write_at l.mem t (some (node null null d))))
          (rw no_tail (
            rw
              (set_prev_at t null (node null null d) l1 nt
                (write_at m0 t (some (node null null d))))
              refl)),
      refl,
      (refl, nt, refl, (null, write_at m1 t (some (node null null d)), (refl, refl))),
    )

append_behind :
    (t d : ℕ) (n : ListNode) (l : LinkedList)
    → t ≢ null
    → l.tail ≢ null
    → t ≢ l.tail
    → l.mem l.tail ≡ some n
    → list_append t (record l { mem = write l.mem t (some (node null null d)) })
      ≡ ok tt (record l {
        mem =
            write
              (write
                (write (write l.mem t (some (node null null d))) t (some (node null null d)))
                l.tail
                (some (record n { next = t })))
              t
              (some (node null l.tail d));
        tail = t;
        length = add64 l.length 1;
      })
unfolding list_append
append_behind t d n l nt has_tail apart at =
    let some_tail : (l.tail == null) ≡ false = ground (arith, has_tail) in
    let m0 = write l.mem t (some (node null null d)) in
    let m1 = write m0 t (some (node null null d)) in
    let m2 = write m1 l.tail (some (record n { next = t })) in
    let l0 : LinkedList = record l { mem = m0 } in
    let l1 : LinkedList = record l { mem = m1 } in
    let l2 : LinkedList = record l { mem = m2 } in
    let at1 : m1 l.tail ≡ some n =
      write_other m0 t (some (node null null d)) l.tail (λ e. apart (sym e))
      ∙ write_other l.mem t (some (node null null d)) l.tail (λ e. apart (sym e))
      ∙ at in
    let at2 : m2 t ≡ some (node null null d) =
      write_other m1 l.tail (some (record n { next = t })) t apart
      ∙ write_at m0 t (some (node null null d)) in
    rw (set_next_at t null (node null null d) l0 nt (write_at l.mem t (some (node null null d)))) (
      rw some_tail (
        rw (set_next_at l.tail t n l1 has_tail at1)
          (rw (set_prev_at t l.tail (node null null d) l2 nt at2) refl)))

insert_appends :
    (t item : ℕ) (l : LinkedList)
    → t ≢ null
    → list_insert t item l
      ≡ and_then
          (list_append t (record l { mem = write l.mem t (some (node null null item)) }))
          (λ _ s. ok (sub64 s.length 1 % 2 ^ 32) s)
unfolding list_insert store list_append set_next load
insert_appends t item l nt =
    let e : (t == null) ≡ false = ground (arith, nt) in rw (e, store, e) refl

-- `list_insert` into a list with the invariant, of fewer than 2 ^ 64 - 1 nodes, where `kmalloc`
-- gives memory that is none of its nodes: it returns the index of the new last node, as an `int`,
-- and the links are those of the list with the item behind it.
pub list_insert-IsList :
    (t item : ℕ) (l : LinkedList) (xs : Nodes)
    → IsList l xs
    → t ≢ null
    → has t xs ≡ false
    → length xs + 1 < u64
    → Inserted t item xs (list_insert t item l)
list_insert-IsList t item l [] is nt out few =
    let (l', run, count, linked) = append_first t item l nt is.linked.1 in
    (
      l',
      rw (insert_appends t item l nt, run) (ap (λ n. ok n l') (omega (arith, count, is.count))),
      record { linked = linked; count = omega (arith, count, is.count) },
    )
list_insert-IsList t item l (x ∷ xs) is nt out few =
    let m0 = write l.mem t (some (node null null item)) in
    let m1 = write m0 t (some (node null null item)) in
    let kept =
      Linked-write m0 t (some (node null null item)) null l.head (x ∷ xs) l.tail
        (Linked-write l.mem t (some (node null null item)) null l.head (x ∷ xs) l.tail is.linked
          out)
        out in
    let (n, found, has_tail, inside, linked) =
      Linked-snoc m1 t item null l.head x xs l.tail kept nt out in
    let apart : t ≢ l.tail = ground (arith, differ t l.tail (x ∷ xs) out inside) in
    let at : l.mem l.tail ≡ some n =
      sym (
        write_other m0 t (some (node null null item)) l.tail (λ e. apart (sym e))
        ∙ write_other l.mem t (some (node null null item)) l.tail (λ e. apart (sym e)))
      ∙ found in
    let run = append_behind t item n l nt has_tail apart at in
    let l' : LinkedList = record l {
      mem = write (write m1 l.tail (some (record n { next = t }))) t (some (node null l.tail item));
      tail = t;
      length = add64 l.length 1;
    } in
    (
      l',
      rw (insert_appends t item l nt, run) (ap (λ n. ok n l') (omega (arith, is.count))),
      record {
        linked = linked;
        count = omega (arith, is.count, length-append {0} (x ∷ xs) ((t, item) ∷ []));
      },
    )
