-- ===== src/LinkedList/Copy.antt =====
-- `list_copy` of kernel/src/misc/list.c.
use omega_os.Base.{ℕ, zero, suc, ◌+◌, ◌≡◌, ◌≢◌, sym, ◌∙◌, false, ◌==◌, arith}
use omega_os.Base.Run.{Run, ok, panicked, fault, deadlock, out_of_fuel, Cmd, and_then}
use omega_os.LinkedList.{LinkedList, null, load, list_insert, copy_from, list_copy}

-- What comes first may return, what comes next never does.
bind_never :
    {A B : Type 0} (r : Run LinkedList A) (k : A → Cmd LinkedList B) (b : B) (m : LinkedList)
    → ((a : A) (l : LinkedList) → k a l ≡ ok b m → ⊥)
    → and_then r k ≡ ok b m
    → ⊥
bind_never (ok a l) k b m never e = never a l e
bind_never panicked k b m never e = cc
bind_never fault k b m never e = cc
bind_never deadlock k b m never e = cc
bind_never out_of_fuel k b m never e = cc

copy_from-suc :
    (fuel node : ℕ) (tmps : ℕ → ℕ) (i : ℕ) (l : LinkedList)
    → node ≢ null
    → copy_from (suc fuel) node tmps i l
      ≡ and_then
          (load node l)
          (λ n s. and_then (list_insert (tmps i) n.value s) (λ _. copy_from fuel node tmps (i + 1)))
unfolding copy_from
copy_from-suc fuel node tmps i l nz =
    let go : (node == null) ≡ false = ground (arith, nz) in rw (copy_from, go)

copy_from-never :
    (fuel node : ℕ) (tmps : ℕ → ℕ) (i : ℕ) (l m : LinkedList)
    → node ≢ null
    → copy_from fuel node tmps i l ≡ ok tt m
    → ⊥
unfolding copy_from
copy_from-never zero node tmps i l m nz e = cc
copy_from-never (suc fuel) node tmps i l m nz e =
    bind_never (load node l)
      (λ n s. and_then (list_insert (tmps i) n.value s) (λ _. copy_from fuel node tmps (i + 1))) tt
      m
      (λ n s.
        bind_never (list_insert (tmps i) n.value s) (λ _. copy_from fuel node tmps (i + 1)) tt m
          (λ a t. copy_from-never fuel node tmps (i + 1) t m nz))
      (sym (copy_from-suc fuel node tmps i l nz) ∙ e)

-- `list_copy` of a list that is not empty never returns, however many rounds its loop is given and
-- whatever the allocator returns: the loop stays at the first node.
pub list_copy-never :
    (fuel original : ℕ) (tmps : ℕ → ℕ) (l m : LinkedList)
    → original ≢ null
    → list_copy fuel original tmps l ≢ ok tt m
unfolding list_copy
list_copy-never fuel original tmps l m nz = copy_from-never fuel original tmps 0 l m nz
