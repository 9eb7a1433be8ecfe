-- ===== src/Strings.antt =====
-- The memory and string functions: kernel/include/libc/string.h and kernel/src/libc/string.c.
pub mod Moves
pub mod Text
pub mod Compare
mod Tests
use omega_os.Base.{
  ℕ, zero, suc, ◌+◌, ◌-◌, ◌%◌, ◌^◌, Bool, true, false, ◌&&◌, ◌||◌, not, Option, none, some, ltb,
  leb, ◌==◌, if◌then◌else◌, put,
}

-- The byte at each address.
abbrev pub Mem : Type 0
Mem = ℕ → ℕ

abbrev pub null : ℕ
null = 0

-- An `int`, in two's complement.
abbrev pub int_sub : ℕ → ℕ → ℕ
int_sub a b = (a + 2 ^ 32 - b) % 2 ^ 32

-- A `char`, which is signed, as an `int`.
abbrev pub of_char : ℕ → ℕ
of_char c = if ltb c 128 then c else c + 2 ^ 32 - 256

infixl 5 ◌>>=◌
abbrev ◌>>=◌ : {A B : Type 0} → Option A → (A → Option B) → Option B
none >>= k = none
some a >>= k = k a

-- The loops that count up, with `n` rounds left.
unfoldable pub copy_up : (dest src n i : ℕ) → Mem → Mem
copy_up dest src zero i mem = mem
copy_up dest src (suc n) i mem = copy_up dest src n (i + 1) (put mem (dest + i) (mem (src + i)))

unfoldable pub memcpy : (dest src n : ℕ) → Mem → Mem
memcpy dest src n mem = copy_up dest src n 0 mem

unfoldable pub set_up : (s c n i : ℕ) → Mem → Mem
set_up s c zero i mem = mem
set_up s c (suc n) i mem = set_up s c n (i + 1) (put mem (s + i) (c % 256))

unfoldable pub memset : (s c n : ℕ) → Mem → Mem
memset s c n mem = set_up s c n 0 mem

-- The loop of `memmove` that counts down.
unfoldable pub copy_down : (dest src i : ℕ) → Mem → Mem
copy_down dest src zero mem = mem
copy_down dest src (suc i) mem = copy_down dest src i (put mem (dest + i) (mem (src + i)))

unfoldable pub memmove : (dest src n : ℕ) → Mem → Mem
memmove dest src n mem =
    if ltb dest src
    then copy_up dest src n 0 mem
    else if ltb src dest
    then copy_down dest src n mem
    else mem

unfoldable pub compare_up : (s1 s2 n i : ℕ) → Mem → ℕ
compare_up s1 s2 zero i mem = 0
compare_up s1 s2 (suc n) i mem =
    let rest = compare_up s1 s2 n (i + 1) mem in
    if not (mem (s1 + i) == mem (s2 + i))
    then (if ltb (mem (s1 + i)) (mem (s2 + i)) then int_sub 0 1 else 1)
    else rest

unfoldable pub memcmp : (s1 s2 n : ℕ) → Mem → ℕ
memcmp s1 s2 n mem = compare_up s1 s2 n 0 mem

-- The loops that end at a null byte run on fuel, and are `none` when it does not suffice.
unfoldable pub find_end : (fuel str : ℕ) → Mem → Option ℕ
find_end zero str mem = none
find_end (suc fuel) str mem =
    let rest = find_end fuel (str + 1) mem in if mem str == 0 then some str else rest

unfoldable pub strlen : (fuel s : ℕ) → Mem → Option ℕ
strlen fuel s mem = do str ← find_end fuel s mem; some (str - s)

-- The loop of `strcpy` and the byte behind it.
unfoldable pub copy_text : (fuel dst src : ℕ) → Mem → Option Mem
copy_text zero dst src mem = none
copy_text (suc fuel) dst src mem =
    let rest = copy_text fuel (dst + 1) (src + 1) (put mem dst (mem src)) in
    if mem src == 0 then some (put mem dst 0) else rest

unfoldable pub strcpy : (fuel dst src : ℕ) → Mem → Option (ℕ × Mem)
strcpy fuel dst src mem =
    if dst == null
    then some (null, mem)
    else (do mem' ← copy_text fuel dst src mem; some (dst, mem'))

unfoldable pub copy_text_n : (dst src n : ℕ) → Mem → Mem
copy_text_n dst src zero mem = put mem dst 0
copy_text_n dst src (suc n) mem =
    let rest = copy_text_n (dst + 1) (src + 1) n (put mem dst (mem src)) in
    if mem src == 0 then put mem dst 0 else rest

unfoldable pub strncpy : (dst src n : ℕ) → Mem → ℕ × Mem
strncpy dst src n mem = if dst == null then (null, mem) else (dst, copy_text_n dst src n mem)

-- `copy` is what `kmalloc` returns.
unfoldable pub strdup : (fuel copy s : ℕ) → Mem → Option (ℕ × Mem)
strdup fuel copy s mem = do
  len ← strlen fuel s mem
  if copy == null
      then some (null, mem)
      else (let (_, mem') = strncpy copy s len mem in some (copy, mem'))

unfoldable pub strcmp : (fuel s1 s2 : ℕ) → Mem → Option ℕ
strcmp zero s1 s2 mem = none
strcmp (suc fuel) s1 s2 mem =
    let rest = strcmp fuel (s1 + 1) (s2 + 1) mem in
    if not (mem s1 == 0) && (mem s1 == mem s2) then rest else some (int_sub (mem s1) (mem s2))

unfoldable pub strncmp : (s1 s2 n : ℕ) → Mem → ℕ
strncmp s1 s2 zero mem = 0
strncmp s1 s2 (suc n) mem =
    let rest = strncmp (s1 + 1) (s2 + 1) n mem in
    if not (mem s1 == mem s2) then int_sub (of_char (mem s1)) (of_char (mem s2)) else rest

unfoldable pub strcat : (fuel s1 s2 : ℕ) → Mem → Option (ℕ × Mem)
strcat fuel s1 s2 mem = do
  len ← strlen fuel s1 mem
  (_, mem') ← strcpy fuel (s1 + len) s2 mem
  some (s1, mem')

unfoldable pub strncat : (fuel s1 s2 n : ℕ) → Mem → Option (ℕ × Mem)
strncat fuel s1 s2 n mem = do
  len ← strlen fuel s1 mem
  let (_, mem') = strncpy (s1 + len) s2 n mem in some (s1, mem')

unfoldable pub strchr : (fuel s c : ℕ) → Mem → Option ℕ
strchr zero s c mem = none
strchr (suc fuel) s c mem =
    let rest = strchr fuel (s + 1) c mem in
    if not (mem s == c) && not (mem s == 0) then rest else if mem s == c then some s else some null

-- The loop of `strspn`.
unfoldable pub span : (fuel inner s1 s2 len : ℕ) → Mem → Option ℕ
span zero inner s1 s2 len mem = none
span (suc fuel) inner s1 s2 len mem =
    let rest = span fuel inner (s1 + 1) s2 (len + 1) mem in
    if mem s1 == 0
    then some len
    else (do found ← strchr inner s2 (mem s1) mem; if found == null then some len else rest)

unfoldable pub strspn : (fuel s1 s2 : ℕ) → Mem → Option ℕ
strspn fuel s1 s2 mem = if s1 == null || s2 == null then some 0 else span fuel fuel s1 s2 0 mem

-- The loop of `strcspn`.
unfoldable pub span_not : (fuel inner s1 s2 len : ℕ) → Mem → Option ℕ
span_not zero inner s1 s2 len mem = none
span_not (suc fuel) inner s1 s2 len mem =
    let rest = span_not fuel inner (s1 + 1) s2 (len + 1) mem in
    if mem s1 == 0
    then some len
    else (do found ← strchr inner s2 (mem s1) mem; if found == null then rest else some len)

unfoldable pub strcspn : (fuel s1 s2 : ℕ) → Mem → Option ℕ
strcspn fuel s1 s2 mem = if s1 == null || s2 == null then some 0 else span_not fuel fuel s1 s2 0 mem

-- `p` is the static variable: the result, its new value and the memory. A string whose first
-- address is the null pointer is not told from none.
unfoldable pub strtok : (fuel s delim p : ℕ) → Mem → Option (ℕ × ℕ × Mem)
strtok fuel s delim p mem =
    let s0 = if s == null then p else s in
    if s0 == null then some (null, p, mem) else (do
      skipped ← strspn fuel s0 delim mem
      if mem (s0 + skipped) == 0 then some (null, null, mem) else (do
        len ← strcspn fuel (s0 + skipped) delim mem
        let end = s0 + skipped + len in
            if mem end == 0
            then some (s0 + skipped, null, mem)
            else some (s0 + skipped, end + 1, put mem end 0)))
