-- ===== src/Strings/Tests.antt =====
-- The theorems about kernel/include/libc/string.h and kernel/src/libc/string.c on a small memory.
use omega_os.Base.{ℕ, ◌≡◌, ◌≢◌, refl, some, List, [], ◌∷◌, arith, ◌==◌, if◌then◌else◌}
use omega_os.Strings.{Mem, memmove, strncmp, strtok, strspn, strcspn, span, span_not, strchr}
use omega_os.Strings.Moves.{moved, memmove-moved}
use omega_os.Strings.Text.{IsString}
use omega_os.Strings.Compare.{IsBytes}

-- "ab" at 16 and at 32, with different bytes behind the two null bytes, and "/" at 48.
abbrev mem : Mem
mem a =
    if a == 16
    then 97
    else if a == 17
    then 98
    else if a == 32
    then 97
    else if a == 33
    then 98
    else if a == 35
    then 120
    else if a == 48
    then 47
    else 0

abbrev ab : List ℕ
ab = 97 ∷ 98 ∷ []

ab-IsString : IsString mem 16 ab
ab-IsString = (refl, ground arith, (refl, ground arith, refl))

ab-again : IsString mem 32 ab
ab-again = (refl, ground arith, (refl, ground arith, refl))

mem-IsBytes : IsBytes mem
mem-IsBytes a = ground arith

-- The regions overlap.
memmove-moved_example : memmove 17 16 3 mem 18 ≡ moved 17 16 3 mem 18
memmove-moved_example = memmove-moved 17 16 3 mem 18

-- Two equal strings, and a bound that is longer than both.
strncmp_behind : strncmp 16 32 8 mem ≢ 0
unfolding strncmp
strncmp_behind = ground arith

-- "ab" has one token.
strtok_one : strtok 4 16 48 0 mem ≡ some (16, 0, mem)
unfolding strtok strspn strcspn span span_not strchr
strtok_one = refl
