-- ===== src/Strings/Moves.antt =====
-- `memcpy`, `memmove`, `memset` and `memcmp` of kernel/include/libc/string.h.
use omega_os.Base.{
  ℕ, zero, suc, ◌+◌, ◌-◌, ◌%◌, ◌≤◌, ◌<◌, ◌≡◌, ◌⊎◌, inl, inr, ◌↔◌, refl, Bool, true, false, ◌&&◌,
  arith, ltb, leb, ◌==◌, if◌then◌else◌, put, sym, ap, ◌∙◌, dec_lt, lt→ltb, ℕ_discrete,
}
use omega_os.Strings.{Mem, copy_up, copy_down, memcpy, memmove, set_up, memset, compare_up, memcmp}

-- The memory after `n` bytes from `src` have been moved to `dest`.
abbrev pub moved : (dest src n : ℕ) → Mem → Mem
moved dest src n mem a = if leb dest a && ltb a (dest + n) then mem (src + (a - dest)) else mem a

plus_zero : (a : ℕ) → a + 0 ≡ a
plus_zero a = omega arith

copy_up-lem :
    (dest src n i : ℕ) (mem : Mem) (a : ℕ)
    → (dest ≤ src) ⊎ (src + (n + i) ≤ dest)
    → copy_up dest src n i mem a
      ≡ (if leb (dest + i) a && ltb a (dest + i + n) then mem (src + (a - dest)) else mem a)
unfolding copy_up
copy_up-lem dest src zero i mem a apart = ground arith
copy_up-lem dest src (suc n) i mem a (inl below) =
    ground
      (arith, copy_up-lem dest src n (i + 1) (put mem (dest + i) (mem (src + i))) a (inl below))
copy_up-lem dest src (suc n) i mem a (inr above) = ground (
  arith,
  copy_up-lem dest src n (i + 1) (put mem (dest + i) (mem (src + i))) a
      (inr (omega (arith, above))),
)

copy_down-lem :
    (dest src i : ℕ) (mem : Mem) (a : ℕ)
    → src ≤ dest
    → copy_down dest src i mem a ≡ moved dest src i mem a
unfolding copy_down
copy_down-lem dest src zero mem a apart = ground arith
copy_down-lem dest src (suc i) mem a apart =
    ground (arith, copy_down-lem dest src i (put mem (dest + i) (mem (src + i))) a apart)

copy_up-moved :
    (dest src n : ℕ) (mem : Mem) (a : ℕ)
    → (dest ≤ src) ⊎ (src + (n + 0) ≤ dest)
    → copy_up dest src n 0 mem a ≡ moved dest src n mem a
copy_up-moved dest src n mem a apart =
    copy_up-lem dest src n 0 mem a apart
    ∙ ap (λ d. if leb d a && ltb a (d + n) then mem (src + (a - dest)) else mem a) (plus_zero dest)

unmoved : (b : Bool) (x y : ℕ) → (b ≡ true → x ≡ y) → y ≡ (if b then x else y)
unmoved true x y e = sym (e refl)
unmoved false x y e = refl

moved-same : (d n : ℕ) (mem : Mem) (a : ℕ) → mem a ≡ moved d d n mem a
moved-same d n mem a =
    unmoved (leb d a && ltb a (d + n)) (mem (d + (a - d))) (mem a)
      (λ inside. let above : d ≤ a = ground (arith, inside) in ap mem (omega (arith, above)))

-- `memmove` moves the bytes as they were before the call, even where the two regions overlap, and
-- changes no byte outside `dest`.
pub memmove-moved :
    (dest src n : ℕ) (mem : Mem) (a : ℕ) → memmove dest src n mem a ≡ moved dest src n mem a
unfolding memmove
memmove-moved dest src n mem a = elim (dec_lt dest src) [
  | yes below ↦
      rw (lt→ltb dest src below) (copy_up-moved dest src n mem a (inl (omega (arith, below))))
  | no above ↦ elim (dec_lt src dest) [
    | yes over ↦
        let e : ltb dest src ≡ false = ground (arith, above) in
        rw (e, lt→ltb src dest over) (copy_down-lem dest src n mem a (omega (arith, over)))
    | no same ↦
        let e : ltb dest src ≡ false = ground (arith, above) in
        let f : ltb src dest ≡ false = ground (arith, same) in
        let g : dest ≡ src = omega (arith, above, same) in
        rw (e, f) (moved-same dest n mem a ∙ ap (λ d. moved dest d n mem a) g)
  ]
]

-- `memcpy` does the same when the source is not below an overlapping destination.
pub memcpy-moved :
    (dest src n : ℕ) (mem : Mem) (a : ℕ)
    → (dest ≤ src) ⊎ (src + n ≤ dest)
    → memcpy dest src n mem a ≡ moved dest src n mem a
unfolding memcpy
memcpy-moved dest src n mem a (inl below) = copy_up-moved dest src n mem a (inl below)
memcpy-moved dest src n mem a (inr above) =
    copy_up-moved dest src n mem a (inr (omega (arith, above)))

set_up-lem :
    (s c n i : ℕ) (mem : Mem) (a : ℕ)
    → set_up s c n i mem a ≡ (if leb (s + i) a && ltb a (s + i + n) then c % 256 else mem a)
unfolding set_up
set_up-lem s c zero i mem a = ground arith
set_up-lem s c (suc n) i mem a =
    ground (arith, set_up-lem s c n (i + 1) (put mem (s + i) (c % 256)) a)

-- `memset` writes the low byte of `c` to `n` bytes, and no other.
pub memset-lem :
    (s c n : ℕ) (mem : Mem) (a : ℕ)
    → memset s c n mem a ≡ (if leb s a && ltb a (s + n) then c % 256 else mem a)
unfolding memset
memset-lem s c n mem a =
    set_up-lem s c n 0 mem a
    ∙ ap (λ d. if leb d a && ltb a (d + n) then c % 256 else mem a) (plus_zero s)

-- The two regions have the same bytes.
abbrev pub Agree : Mem → (s1 s2 n : ℕ) → Type 0
Agree mem s1 s2 n = (j : ℕ) → j < n → mem (s1 + j) ≡ mem (s2 + j)

compare_up-agree :
    (s1 s2 n i : ℕ) (mem : Mem)
    → ((j : ℕ) → i ≤ j → j < i + n → mem (s1 + j) ≡ mem (s2 + j))
    → compare_up s1 s2 n i mem ≡ 0
unfolding compare_up
compare_up-agree s1 s2 zero i mem same = refl
compare_up-agree s1 s2 (suc n) i mem same =
    let e : (mem (s1 + i) == mem (s2 + i)) ≡ true = ground (arith, same i) in
    rw e (
      compare_up-agree s1 s2 n (i + 1) mem
        (λ j low high. same j (omega (arith, low)) (omega (arith, high))))

compare_up-zero :
    (s1 s2 n i : ℕ) (mem : Mem)
    → compare_up s1 s2 n i mem ≡ 0
    → (j : ℕ) → i ≤ j
    → j < i + n
    → mem (s1 + j) ≡ mem (s2 + j)
unfolding compare_up
compare_up-zero s1 s2 zero i mem e j low high = absurd (omega (arith, low, high))
compare_up-zero s1 s2 (suc n) i mem e j low high = elim (ℕ_discrete j i) [
  | yes here ↦
      let first : mem (s1 + i) ≡ mem (s2 + i) = ground (arith, e) in
      ap (λ k. mem (s1 + k)) here ∙ first ∙ ap (λ k. mem (s2 + k)) (sym here)
  | no later ↦
      compare_up-zero s1 s2 n (i + 1) mem (ground (arith, e)) j (omega (arith, low, later))
        (omega (arith, high))
]

-- `memcmp` is 0 exactly when the two regions have the same bytes.
pub memcmp-Agree : (s1 s2 n : ℕ) (mem : Mem) → (memcmp s1 s2 n mem ≡ 0) ↔ Agree mem s1 s2 n
unfolding memcmp
memcmp-Agree s1 s2 n mem = (
  λ e j inside. compare_up-zero s1 s2 n 0 mem e j (omega arith) (omega (arith, inside)),
  λ same. compare_up-agree s1 s2 n 0 mem (λ j low high. same j (omega (arith, high))),
)
