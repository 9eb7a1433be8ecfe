-- ===== src/LinkedList/Tests.antt =====
-- The functions of kernel/src/misc/list.c on lists of one and two nodes.
use omega_os.Base.{◌+◌, ◌-◌, ◌^◌, ◌≡◌, ◌≢◌, refl, none, some, [], ◌∷◌, arith}
use omega_os.Base.Run.{ok, fault, pure, ◌>>=◌, ◌>>◌}
use omega_os.LinkedList.{
  LinkedList, list_remove, write, load, list_insert, list_delete, list_find_index, advance,
  list_copy, list_find, list_destroy, list_merge, set_next, store,
}
use omega_os.LinkedList.Copy.{list_copy-never}
use omega_os.LinkedList.Links.{IsList, Inserted, list_insert-IsList}
use omega_os.LinkedList.Walk.{list_find-destroy}

abbrev empty : LinkedList
empty = record { mem = λ a. none; head = 0; tail = 0; length = 0 }

abbrev one : LinkedList
one = record {
  mem = write (λ a. none) 16 (some (record { next = 0; prev = 0; value = 7 }));
  head = 16;
  tail = 16;
  length = 1;
}

list_copy-never_example : list_copy 9 16 (λ i. 32 + i) one ≢ ok tt one
list_copy-never_example = list_copy-never 9 16 (λ i. 32 + i) one one (ground arith)

-- The index of the length passes the test, and the walk ends at the null pointer.
index_behind : list_find_index 1 one ≡ ok 0 one
unfolding list_find_index advance load
index_behind = refl

-- `list_remove` then deletes the null pointer.
remove_behind : list_remove 1 one ≡ fault
unfolding list_remove list_delete advance load
remove_behind = refl

insert_first : list_insert 0 7 empty ≡ ok (2 ^ 32 - 1) empty
unfolding list_insert
insert_first = refl

one-IsList : IsList one ((16, 7) ∷ [])
one-IsList = record { linked = (refl, ground arith, refl, (0, refl, (refl, refl))); count = refl }

list_insert-IsList_example : Inserted 32 9 ((16, 7) ∷ []) (list_insert 32 9 one)
list_insert-IsList_example =
    list_insert-IsList 32 9 one ((16, 7) ∷ []) one-IsList (ground arith) refl (omega arith)

list_find-destroy_example : (list_find 2 7 one ≡ ok 16 one) × (list_destroy 2 one ≡ ok (7 ∷ []) one)
list_find-destroy_example = list_find-destroy 7 one ((16, 7) ∷ []) one-IsList

-- Two lists of one node in the same memory: the first is the state.
abbrev two : LinkedList
two = record one { mem = write one.mem 32 (some (record { next = 0; prev = 0; value = 9 })) }

-- `list_merge` leaves the previous pointer of the source's first node null.
merge_prev :
    (do list_merge 32 32 1; n ← load 32; pure n.prev) two
    ≡ ok 0 (record two {
      mem = write two.mem 16 (some (record { next = 32; prev = 0; value = 7 }));
      tail = 32;
      length = 2;
    })
unfolding list_merge load store set_next
merge_prev = refl
