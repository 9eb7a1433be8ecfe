-- ===== src/Keyboard.antt =====
-- The keyboard: `ps2_kbd_getc` of kernel/src/dev/ps2/kbd.c, with the tables of
-- kernel/include/dev/ps2/translator.h, and `stdinRead` of kernel/src/fs/std.c. What the two ports
-- give is an argument.
pub mod Keys
mod Tests
use Prim.Native.Nat.{bit_and, bit_or, bit_xor}
use omega_os.Base.{
  ℕ, zero, suc, ◌+◌, ◌-◌, ◌^◌, ◌%◌, Bool, true, false, ◌&&◌, not, Option, none, some, List, [], ◌∷◌,
  leb, ltb, ◌==◌, if◌then◌else◌, get_elem?, put,
}
use omega_os.Strings.{Mem}

-- The bits of `shift`.
abbrev pub shift_bit : ℕ
shift_bit = 1

abbrev pub ctl_bit : ℕ
ctl_bit = 2

abbrev pub alt_bit : ℕ
alt_bit = 4

abbrev pub capslock_bit : ℕ
capslock_bit = 8

abbrev pub numlock_bit : ℕ
numlock_bit = 16

abbrev pub scrolllock_bit : ℕ
scrolllock_bit = 32

abbrev pub e0esc_bit : ℕ
e0esc_bit = 64

unfoldable pub shiftcode : ℕ → ℕ
shiftcode code =
    if code == 0x1D
    then ctl_bit
    else if code == 0x2A
    then shift_bit
    else if code == 0x36
    then shift_bit
    else if code == 0x38
    then alt_bit
    else if code == 0x9D
    then ctl_bit
    else if code == 0xB8
    then alt_bit
    else 0

unfoldable pub togglecode : ℕ → ℕ
togglecode code =
    if code == 0x3A
    then capslock_bit
    else if code == 0x45
    then numlock_bit
    else if code == 0x46
    then scrolllock_bit
    else 0

-- A table of 256 entries: the first ones in order, then those at an index, and 0 elsewhere.
abbrev find_at : List (ℕ × ℕ) → ℕ → ℕ
find_at [] i = 0
find_at ((k, v) ∷ rest) i = if i == k then v else find_at rest i

abbrev pub entry : List ℕ → List (ℕ × ℕ) → ℕ → ℕ
entry first rest i = elim (get_elem? first i) [ some c ↦ c | none ↦ find_at rest i ]

-- The keys that send an escape, which the three maps share but for two.
abbrev arrows : List (ℕ × ℕ)
arrows =
    (0xC8, 0xE2)
    ∷ (0xD0, 0xE3)
    ∷ (0xC9, 0xE6)
    ∷ (0xD1, 0xE7)
    ∷ (0xCB, 0xE4)
    ∷ (0xCD, 0xE5)
    ∷ (0x97, 0xE0)
    ∷ (0xCF, 0xE1)
    ∷ (0xD2, 0xE8)
    ∷ (0xD3, 0xE9)
    ∷ []

abbrev normal_keys : List ℕ
normal_keys =
    0 ∷ 27 ∷ 49 ∷ 50 ∷ 51 ∷ 52 ∷ 53 ∷ 54 ∷ 55 ∷ 56 ∷ 57 ∷ 48 ∷ 45 ∷ 61 ∷ 8 ∷ 9 ∷ 113 ∷ 119 ∷ 101
    ∷ 114 ∷ 116 ∷ 121 ∷ 117 ∷ 105 ∷ 111 ∷ 112 ∷ 91 ∷ 93 ∷ 10 ∷ 0 ∷ 97 ∷ 115 ∷ 100 ∷ 102 ∷ 103 ∷ 104
    ∷ 106 ∷ 107 ∷ 108 ∷ 59 ∷ 39 ∷ 96 ∷ 0 ∷ 92 ∷ 122 ∷ 120 ∷ 99 ∷ 118 ∷ 98 ∷ 110 ∷ 109 ∷ 44 ∷ 46 ∷ 47
    ∷ 0 ∷ 42 ∷ 0 ∷ 32 ∷ 0 ∷ 0 ∷ 0 ∷ 0 ∷ 0 ∷ 0 ∷ 0 ∷ 0 ∷ 0 ∷ 0 ∷ 0 ∷ 0 ∷ 0 ∷ 55 ∷ 56 ∷ 57 ∷ 45 ∷ 52
    ∷ 53 ∷ 54 ∷ 43 ∷ 49 ∷ 50 ∷ 51 ∷ 48 ∷ 46 ∷ 0 ∷ 0 ∷ 0 ∷ 0 ∷ []

abbrev shift_keys : List ℕ
shift_keys =
    0 ∷ 27 ∷ 33 ∷ 64 ∷ 35 ∷ 36 ∷ 37 ∷ 94 ∷ 38 ∷ 42 ∷ 40 ∷ 41 ∷ 95 ∷ 43 ∷ 8 ∷ 9 ∷ 81 ∷ 87 ∷ 69 ∷ 82
    ∷ 84 ∷ 89 ∷ 85 ∷ 73 ∷ 79 ∷ 80 ∷ 123 ∷ 125 ∷ 10 ∷ 0 ∷ 65 ∷ 83 ∷ 68 ∷ 70 ∷ 71 ∷ 72 ∷ 74 ∷ 75 ∷ 76
    ∷ 58 ∷ 34 ∷ 126 ∷ 0 ∷ 124 ∷ 90 ∷ 88 ∷ 67 ∷ 86 ∷ 66 ∷ 78 ∷ 77 ∷ 60 ∷ 62 ∷ 63 ∷ 0 ∷ 42 ∷ 0 ∷ 32
    ∷ 0 ∷ 0 ∷ 0 ∷ 0 ∷ 0 ∷ 0 ∷ 0 ∷ 0 ∷ 0 ∷ 0 ∷ 0 ∷ 0 ∷ 0 ∷ 55 ∷ 56 ∷ 57 ∷ 45 ∷ 52 ∷ 53 ∷ 54 ∷ 43 ∷ 49
    ∷ 50 ∷ 51 ∷ 48 ∷ 46 ∷ 0 ∷ 0 ∷ 0 ∷ 0 ∷ []

abbrev ctl_keys : List ℕ
ctl_keys =
    0 ∷ 0 ∷ 0 ∷ 0 ∷ 0 ∷ 0 ∷ 0 ∷ 0 ∷ 0 ∷ 0 ∷ 0 ∷ 0 ∷ 0 ∷ 0 ∷ 0 ∷ 0 ∷ 17 ∷ 23 ∷ 5 ∷ 18 ∷ 20 ∷ 25 ∷ 21
    ∷ 9 ∷ 15 ∷ 16 ∷ 0 ∷ 0 ∷ 13 ∷ 0 ∷ 1 ∷ 19 ∷ 4 ∷ 6 ∷ 7 ∷ 8 ∷ 10 ∷ 11 ∷ 12 ∷ 0 ∷ 0 ∷ 0 ∷ 0 ∷ 28 ∷ 26
    ∷ 24 ∷ 3 ∷ 22 ∷ 2 ∷ 14 ∷ 13 ∷ 0 ∷ 0 ∷ 239 ∷ 0 ∷ 0 ∷ []

unfoldable pub normalmap : ℕ → ℕ
normalmap = entry normal_keys ((0x9C, 10) ∷ (0xB5, 47) ∷ arrows)

unfoldable pub shiftmap : ℕ → ℕ
shiftmap = entry shift_keys ((0x9C, 10) ∷ (0xB5, 47) ∷ arrows)

-- `C('/')` is -17, as a byte.
unfoldable pub ctlmap : ℕ → ℕ
ctlmap = entry ctl_keys ((0x9C, 13) ∷ (0xB5, 239) ∷ arrows)

-- `charcode`, of which the last two maps are the same.
unfoldable pub charcode : (map code : ℕ) → ℕ
charcode map code =
    if map == 0 then normalmap code else if map == 1 then shiftmap code else ctlmap code

-- `shift & ~mask`.
abbrev pub clear : (shift mask : ℕ) → ℕ
clear shift mask = bit_and shift (2 ^ 32 - 1 - mask)

-- The end of `ps2_kbd_getc`, where caps lock changes the case of a letter.
unfoldable pub change_case : (shift c : ℕ) → ℕ
change_case shift c =
    if not (bit_and shift capslock_bit == 0)
    then (if leb 97 c && leb c 122 then c - 32 else if leb 65 c && leb c 90 then c + 32 else c)
    else c

-- A key that is pressed: the character and the new `shift`.
unfoldable pub press : (shift code : ℕ) → ℕ × ℕ
press shift code =
    let held = bit_or shift (shiftcode code) in
    let now = bit_xor held (togglecode code) in
    (change_case now (charcode (bit_and now (bit_or ctl_bit shift_bit)) code), now)

-- A key that is released.
unfoldable pub unpress : (shift code : ℕ) → ℕ × ℕ
unpress shift code =
    let released = if bit_and shift e0esc_bit == 0 then bit_and code 0x7F else code in
    (0, clear shift (bit_or (shiftcode released) e0esc_bit))

-- `status` and `code` (the source's `data`) are what the two ports give; the result is an `int`.
unfoldable pub ps2_kbd_getc : (status code shift : ℕ) → ℕ × ℕ
ps2_kbd_getc status code shift =
    if bit_and status 1 == 0
    then (2 ^ 32 - 1, shift)
    else if code == 0xE0
    then (0, bit_or shift e0esc_bit)
    else if not (bit_and code 0x80 == 0)
    then unpress shift code
    else if not (bit_and shift e0esc_bit == 0)
    then press (clear shift e0esc_bit) (bit_or code 0x80)
    else press shift code

-- `stdinRead`: the result as a `ssize_t`, the memory and the new `shift`. An `int` that is not
-- positive is 0 or has its highest bit set.
unfoldable pub stdin_read : (status code buffer shift : ℕ) → Mem → ℕ × Mem × ℕ
stdin_read status code buffer shift mem =
    let r = ps2_kbd_getc status code shift in
    if (r.0 == 0)
    then (2 ^ 64 - 1, mem, r.1)
    else if leb (2 ^ 31) r.0
    then (2 ^ 64 - 1, mem, r.1)
    else (1, put mem buffer (r.0 % 256), r.1)
