-- ===== src/Strings/Compare.antt =====
-- `strcmp` of kernel/include/libc/string.h and `strncmp` of kernel/src/libc/string.c.
use omega_os.Base.{
  ℕ, zero, suc, ◌+◌, ◌<◌, ◌≡◌, ◌≢◌, ◌⊎◌, inl, inr, ◌↔◌, refl, true, false, ◌&&◌, not, arith, ◌==◌,
  sym, ap, ap₂, ◌∙◌, ℕ_discrete, some, List, [], ◌∷◌, length,
}
use omega_os.Strings.{Mem, int_sub, of_char, strcmp, strncmp}
use omega_os.Strings.Moves.{Agree}
use omega_os.Strings.Text.{IsString}

-- Each byte of the memory is one.
abbrev pub IsBytes : Mem → Type 0
IsBytes mem = (a : ℕ) → mem a < 256

int_sub-zero : (a b : ℕ) → a < 256 → b < 256 → int_sub a b ≡ 0 → a ≡ b
int_sub-zero a b ha hb e = omega (arith, ha, hb, e)

-- The loop stops, or goes on.
strcmp-stops :
    (fuel s1 s2 : ℕ) (mem : Mem)
    → (mem s1 ≡ 0) ⊎ (mem s1 ≢ mem s2)
    → strcmp (suc fuel) s1 s2 mem ≡ some (int_sub (mem s1) (mem s2))
unfolding strcmp
strcmp-stops fuel s1 s2 mem (inl e) = rw e
strcmp-stops fuel s1 s2 mem (inr ne) =
    let e : (not (mem s1 == 0) && (mem s1 == mem s2)) ≡ false = ground (arith, ne) in rw e

strcmp-goes_on :
    (fuel s1 s2 : ℕ) (mem : Mem)
    → mem s1 ≢ 0
    → mem s1 ≡ mem s2
    → strcmp (suc fuel) s1 s2 mem ≡ strcmp fuel (s1 + 1) (s2 + 1) mem
unfolding strcmp
strcmp-goes_on fuel s1 s2 mem nz same =
    let e : (not (mem s1 == 0) && (mem s1 == mem s2)) ≡ true = ground (arith, nz, same) in rw e

-- `strcmp` of two strings is 0 exactly when they have the same bytes; fuel for one byte more than
-- the first is enough.
pub strcmp-IsString :
    (fuel s1 s2 : ℕ) (mem : Mem) (xs ys : List ℕ)
    → IsBytes mem
    → IsString mem s1 xs
    → IsString mem s2 ys
    → length xs < fuel
    → (r : ℕ) × (strcmp fuel s1 s2 mem ≡ some r) × ((r ≡ 0) ↔ (xs ≡ ys))
strcmp-IsString zero s1 s2 mem xs ys bytes is1 is2 enough = absurd (omega (arith, enough))
strcmp-IsString (suc fuel) s1 s2 mem [] [] bytes e f enough = (
  int_sub (mem s1) (mem s2),
  strcmp-stops fuel s1 s2 mem (inl e),
  (λ _. refl, λ _. omega (arith, e, f)),
)
strcmp-IsString (suc fuel) s1 s2 mem [] (y ∷ ys) bytes e (f, ny, is2) enough = (
  int_sub (mem s1) (mem s2),
  strcmp-stops fuel s1 s2 mem (inl e),
  (
    λ z. absurd (ny (omega (arith, e, f, int_sub-zero (mem s1) (mem s2) (bytes s1) (bytes s2) z))),
    λ z. cc,
  ),
)
strcmp-IsString (suc fuel) s1 s2 mem (x ∷ xs) [] bytes (e, nx, is1) f enough = (
  int_sub (mem s1) (mem s2),
  strcmp-stops fuel s1 s2 mem (inr (λ z. nx (sym e ∙ z ∙ f))),
  (λ z. absurd (nx (sym e ∙ int_sub-zero (mem s1) (mem s2) (bytes s1) (bytes s2) z ∙ f)), λ z. cc),
)
strcmp-IsString (suc fuel) s1 s2 mem (x ∷ xs) (y ∷ ys) bytes (e, nx, is1) (f, ny, is2) enough =
    elim (ℕ_discrete x y) [
      | yes same ↦
          let (r, run, iff) =
            strcmp-IsString fuel (s1 + 1) (s2 + 1) mem xs ys bytes is1 is2
              (omega (arith, enough)) in
          (
            r,
            strcmp-goes_on fuel s1 s2 mem (λ z. nx (sym e ∙ z)) (e ∙ same ∙ sym f) ∙ run,
            (λ z. ap₂ ◌∷◌ same (iff.0 z), λ z. iff.1 cc),
          )
      | no other ↦ (
        int_sub (mem s1) (mem s2),
        strcmp-stops fuel s1 s2 mem (inr (λ z. other (sym e ∙ z ∙ f))),
        (
          λ z. absurd (other (sym e ∙ int_sub-zero (mem s1) (mem s2) (bytes s1) (bytes s2) z ∙ f)),
          λ z. absurd (other cc),
        ),
      )
    ]

char-zero : (a b : ℕ) → a < 256 → b < 256 → int_sub (of_char a) (of_char b) ≡ 0 → a ≡ b
char-zero a b ha hb e = ground (arith, ha, hb, e)

Agree-suc :
    (mem : Mem) (s1 s2 n : ℕ)
    → mem s1 ≡ mem s2
    → Agree mem (s1 + 1) (s2 + 1) n
    → Agree mem s1 s2 (suc n)
Agree-suc mem s1 s2 n e rest zero inside = ap mem (omega arith) ∙ e ∙ ap mem (omega arith)
Agree-suc mem s1 s2 n e rest (suc j) inside =
    ap mem (omega arith) ∙ rest j (omega (arith, inside)) ∙ ap mem (omega arith)

Agree-tail : (mem : Mem) (s1 s2 n : ℕ) → Agree mem s1 s2 (suc n) → Agree mem (s1 + 1) (s2 + 1) n
Agree-tail mem s1 s2 n same j inside =
    ap mem (omega arith) ∙ same (suc j) (omega (arith, inside)) ∙ ap mem (omega arith)

Agree-head : (mem : Mem) (s1 s2 n : ℕ) → Agree mem s1 s2 (suc n) → mem s1 ≡ mem s2
Agree-head mem s1 s2 n same = ap mem (omega arith) ∙ same 0 (omega arith) ∙ ap mem (omega arith)

strncmp-first :
    (s1 s2 n : ℕ) (mem : Mem)
    → mem s1 ≡ mem s2
    → strncmp s1 s2 (suc n) mem ≡ strncmp (s1 + 1) (s2 + 1) n mem
unfolding strncmp
strncmp-first s1 s2 n mem same = let e : (mem s1 == mem s2) ≡ true = ground (arith, same) in rw e

strncmp-differs :
    (s1 s2 n : ℕ) (mem : Mem)
    → mem s1 ≢ mem s2
    → strncmp s1 s2 (suc n) mem ≡ int_sub (of_char (mem s1)) (of_char (mem s2))
unfolding strncmp
strncmp-differs s1 s2 n mem ne = let e : (mem s1 == mem s2) ≡ false = ground (arith, ne) in rw e

-- `strncmp` is 0 exactly when all `n` bytes agree, those behind a null byte included: it does not
-- stop where both strings end.
pub strncmp-Agree :
    (s1 s2 n : ℕ) (mem : Mem) → IsBytes mem → (strncmp s1 s2 n mem ≡ 0) ↔ Agree mem s1 s2 n
unfolding strncmp
strncmp-Agree s1 s2 zero mem bytes = (λ _ j inside. absurd (omega (arith, inside)), λ _. refl)
strncmp-Agree s1 s2 (suc n) mem bytes = elim (ℕ_discrete (mem s1) (mem s2)) [
  | yes same ↦
      let (one, other) = strncmp-Agree (s1 + 1) (s2 + 1) n mem bytes in
      (
        λ e. Agree-suc mem s1 s2 n same (one (sym (strncmp-first s1 s2 n mem same) ∙ e)),
        λ all. strncmp-first s1 s2 n mem same ∙ other (Agree-tail mem s1 s2 n all),
      )
  | no ne ↦ (
    λ e. absurd (
        ne (
          char-zero (mem s1) (mem s2) (bytes s1) (bytes s2)
            (sym (strncmp-differs s1 s2 n mem ne) ∙ e))),
    λ all. absurd (ne (Agree-head mem s1 s2 n all)),
  )
]
