-- ===== src/Strings/Text.antt =====
-- `strlen`, `strcpy` and `strcat` of kernel/include/libc/string.h on strings.
use omega_os.Base.{
  ℕ, zero, suc, ◌+◌, ◌<◌, ◌≡◌, ◌≢◌, ◌⊎◌, inl, refl, false, arith, ◌==◌, put, put_at, put_other, ap,
  ◌∙◌, some, List, [], ◌∷◌, ◌++◌, length, subst,
}
use omega_os.Strings.{Mem, null, find_end, strlen, copy_text, strcpy, strcat}

-- The bytes `xs`, none of them 0, stand at `a`, and a null byte behind them.
abbrev pub IsString : Mem → ℕ → List ℕ → Type 0
IsString mem a [] = mem a ≡ 0
IsString mem a (x ∷ xs) = (mem a ≡ x) × (x ≢ 0) × IsString mem (a + 1) xs

find_end-lem :
    (fuel a : ℕ) (mem : Mem) (xs : List ℕ)
    → IsString mem a xs
    → length xs < fuel
    → find_end fuel a mem ≡ some (a + length xs)
unfolding find_end
find_end-lem zero a mem xs is enough = absurd (omega (arith, enough))
find_end-lem (suc fuel) a mem [] is enough = rw is (ap some (omega arith))
find_end-lem (suc fuel) a mem (x ∷ xs) (e, ne, is) enough =
    let go : (mem a == 0) ≡ false = ground (arith, e, ne) in
    rw go (find_end-lem fuel (a + 1) mem xs is (omega (arith, enough)) ∙ ap some (omega arith))

-- A byte outside the string does not matter to it.
pub IsString-put :
    (mem : Mem) (a : ℕ) (xs : List ℕ) (d v : ℕ)
    → (d < a) ⊎ (a + length xs < d)
    → IsString mem a xs
    → IsString (put mem d v) a xs
IsString-put mem a [] d v apart is = put_other mem d v a (ground (arith, apart)) ∙ is
IsString-put mem a (x ∷ xs) d v apart (e, ne, is) = (
  put_other mem d v a (ground (arith, apart)) ∙ e,
  ne,
  IsString-put mem (a + 1) xs d v (ground (arith, apart)) is,
)

-- A string that agrees byte by byte.
copy_text-IsString :
    (fuel dst src : ℕ) (mem : Mem) (xs : List ℕ)
    → IsString mem src xs
    → length xs < fuel
    → (dst + length xs < src) ⊎ (src + length xs < dst)
    → (mem' : Mem) × (copy_text fuel dst src mem ≡ some mem')
      × IsString mem' dst xs
      × ((a : ℕ) → (a < dst) ⊎ (dst + length xs < a) → mem' a ≡ mem a)
unfolding copy_text
copy_text-IsString zero dst src mem xs is enough apart = absurd (omega (arith, enough))
copy_text-IsString (suc fuel) dst src mem [] is enough apart = (
  put mem dst 0,
  rw is refl,
  put_at mem dst 0,
  λ a out. put_other mem dst 0 a (ground (arith, out)),
)
copy_text-IsString (suc fuel) dst src mem (x ∷ xs) (e, ne, is) enough apart =
    let next : Mem = put mem dst (mem src) in
    let (mem', run, is', others) =
      copy_text-IsString fuel (dst + 1) (src + 1) next xs
        (IsString-put mem (src + 1) xs dst (mem src) (ground (arith, apart)) is)
        (omega (arith, enough)) (ground (arith, apart)) in
    let go : (mem src == 0) ≡ false = ground (arith, e, ne) in
    (
      mem',
      rw go run,
      (others dst (inl (omega arith)) ∙ put_at mem dst (mem src) ∙ e, ne, is'),
      λ a out. others a (ground (arith, out)) ∙ put_other mem dst (mem src) a (ground (arith, out)),
    )

-- `strlen` counts the bytes before the null byte; fuel for one more is enough.
pub strlen-IsString :
    (fuel a : ℕ) (mem : Mem) (xs : List ℕ)
    → IsString mem a xs
    → length xs < fuel
    → strlen fuel a mem ≡ some (length xs)
unfolding strlen
strlen-IsString fuel a mem xs is enough =
    rw (find_end-lem fuel a mem xs is enough) (ap some (omega arith))

-- `strcpy` between regions that do not overlap returns the destination, where it leaves the string,
-- and changes no byte outside; fuel for one byte more than the string is enough.
pub strcpy-IsString :
    (fuel dst src : ℕ) (mem : Mem) (xs : List ℕ)
    → dst ≢ null
    → IsString mem src xs
    → length xs < fuel
    → (dst + length xs < src) ⊎ (src + length xs < dst)
    → (mem' : Mem) × (strcpy fuel dst src mem ≡ some (dst, mem'))
      × IsString mem' dst xs
      × ((a : ℕ) → (a < dst) ⊎ (dst + length xs < a) → mem' a ≡ mem a)
unfolding strcpy
strcpy-IsString fuel dst src mem xs nz is enough apart =
    let (mem', run, is', others) = copy_text-IsString fuel dst src mem xs is enough apart in
    let e : (dst == null) ≡ false = ground (arith, nz) in (mem', rw (e, run), is', others)

-- A string whose null byte is followed up by another one.
IsString-append :
    (mem mem' : Mem) (a : ℕ) (xs ys : List ℕ)
    → IsString mem a xs
    → ((b : ℕ) → b < a + length xs → mem' b ≡ mem b)
    → IsString mem' (a + length xs) ys
    → IsString mem' a (xs ++ ys)
IsString-append mem mem' a [] ys is kept is' =
    let e : a + 0 ≡ a = omega arith in subst (λ b. IsString mem' b ys) e is'
IsString-append mem mem' a (x ∷ xs) ys (e, ne, is) kept is' =
    let at : a + suc (length xs) ≡ a + 1 + length xs = omega arith in
    (
      kept a (omega arith) ∙ e,
      ne,
      IsString-append mem mem' (a + 1) xs ys is (λ b h. kept b (omega (arith, h)))
          (subst (λ b. IsString mem' b ys) at is'),
    )

-- `strcat` puts the second string behind the first, and changes no byte outside the place where it
-- puts it.
pub strcat-IsString :
    (fuel s1 s2 : ℕ) (mem : Mem) (xs ys : List ℕ)
    → s1 ≢ null
    → IsString mem s1 xs
    → IsString mem s2 ys
    → length xs < fuel
    → length ys < fuel
    → (s1 + length xs + length ys < s2) ⊎ (s2 + length ys < s1 + length xs)
    → (mem' : Mem) × (strcat fuel s1 s2 mem ≡ some (s1, mem'))
      × IsString mem' s1 (xs ++ ys)
      × ((a : ℕ) → (a < s1 + length xs) ⊎ (s1 + length xs + length ys < a) → mem' a ≡ mem a)
unfolding strcat
strcat-IsString fuel s1 s2 mem xs ys nz is1 is2 enough1 enough2 apart =
    let (mem', run, is', others) =
      strcpy-IsString fuel (s1 + length xs) s2 mem ys (λ e. nz (omega (arith, e))) is2 enough2
        apart in
    (
      mem',
      rw (strlen-IsString fuel s1 mem xs is1 enough1, run),
      IsString-append mem mem' s1 xs ys is1 (λ b h. others b (inl h)) is',
      others,
    )
