-- ===== src/Keyboard/Keys.antt =====
-- The state machine of `ps2_kbd_getc` in kernel/src/dev/ps2/kbd.c.
use Prim.Native.Nat.{bit_and, bit_or}
use omega_os.Base.{
  ℕ, ◌-◌, ◌<◌, ◌≡◌, refl, ap₂, Bool, true, false, ◌&&◌, ◌||◌, not, List, [], ◌∷◌, ltb, leb, ◌==◌,
  ==_iff, if◌then◌else◌, evaluate, evaluate_at, ltb→lt, arith,
}
use omega_os.Keyboard.{
  shift_bit, ctl_bit, capslock_bit, e0esc_bit, shiftcode, togglecode, normalmap, shiftmap, ctlmap,
  charcode, change_case, press, unpress, ps2_kbd_getc,
}

-- Is a test true of all seven bits of `shift` and all bytes? It is evaluated.
abbrev on_bytes : (shifts : ℕ) (test : ℕ → ℕ → Bool) → Bool
on_bytes shifts test = evaluate (λ s. evaluate (test s) 256) shifts

on_bytes_at :
    (shifts : ℕ) (test : ℕ → ℕ → Bool) (s code : ℕ)
    → on_bytes shifts test ≡ true
    → s < shifts
    → code < 256
    → test s code ≡ true
on_bytes_at shifts test s code run hs hc =
    evaluate_at (test s) 256 code hc (evaluate_at (λ s. evaluate (test s) 256) shifts s hs run)

-- The new bits are seven again, and an escape is over unless the byte is the escape.
abbrev kept : (s code : ℕ) → Bool
kept s code =
    let after = (ps2_kbd_getc 1 code s).1 in
    ltb after 128 && ((code == 0xE0) || (bit_and after e0esc_bit == 0))

kept_table : on_bytes 128 kept ≡ true
unfolding ps2_kbd_getc unpress press shiftcode togglecode
kept_table = refl

and_left : (a b : Bool) → (a && b) ≡ true → a ≡ true
and_left true b h = refl
and_left false b h = cc

-- `shift` after a sequence of bytes that the controller gives.
unfoldable pub type_keys : List ℕ → ℕ → ℕ
type_keys [] s = s
type_keys (code ∷ codes) s = type_keys codes (ps2_kbd_getc 1 code s).1

abbrev pub IsBytes : List ℕ → Type 0
IsBytes [] = Unit
IsBytes (code ∷ codes) = (code < 256) × IsBytes codes

type_keys-small : (codes : List ℕ) (s : ℕ) → IsBytes codes → s < 128 → type_keys codes s < 128
unfolding type_keys
type_keys-small [] s bytes h = h
type_keys-small (code ∷ codes) s (byte, bytes) h =
    let after = (ps2_kbd_getc 1 code s).1 in
    let small : ltb after 128 ≡ true =
      and_left (ltb after 128) ((code == 0xE0) || (bit_and after e0esc_bit == 0))
        (on_bytes_at 128 kept s code kept_table h byte) in
    type_keys-small codes after bytes (ltb→lt after 128 small)

-- The break codes of the left shift key, twice, of the right one, of control and of alt. The first
-- may follow an escape, which it ends.
abbrev pub release_all : List ℕ
release_all = 0xAA ∷ 0xAA ∷ 0xB6 ∷ 0x9D ∷ 0xB8 ∷ []

abbrev pub held_bits : ℕ
held_bits = 71

abbrev settled : ℕ → Bool
settled s =
    (bit_and (type_keys release_all s) held_bits == 0)
    && (bit_and (type_keys release_all s) 56 == bit_and s 56)

settled_table : evaluate settled 128 ≡ true
unfolding type_keys ps2_kbd_getc unpress press shiftcode togglecode
settled_table = refl

and_right : (a b : Bool) → (a && b) ≡ true → b ≡ true
and_right true b h = h
and_right false b h = cc

-- Whatever bytes the keyboard has sent since the start, once the shift, control and alt keys are
-- released none of their bits is set, nor that of the escape, and the locks are as they were.
pub type_keys-settles :
    (codes : List ℕ)
    → IsBytes codes
    → (bit_and (type_keys release_all (type_keys codes 0)) held_bits ≡ 0)
      × (bit_and (type_keys release_all (type_keys codes 0)) 56 ≡ bit_and (type_keys codes 0) 56)
type_keys-settles codes bytes =
    let s = type_keys codes 0 in
    let small : s < 128 = type_keys-small codes 0 bytes (omega arith) in
    let done = evaluate_at settled 128 s small settled_table in
    let end = type_keys release_all s in
    (
      (==_iff (bit_and end held_bits) 0).0
          (and_left (bit_and end held_bits == 0) (bit_and end 56 == bit_and s 56) done),
      (==_iff (bit_and end 56) (bit_and s 56)).0
          (and_right (bit_and end held_bits == 0) (bit_and end 56 == bit_and s 56) done),
    )

-- Is one of the shift keys held, or caps lock on, but not both?
abbrev pub is_upper : ℕ → Bool
is_upper s =
    if bit_and s shift_bit == 0
    then not (bit_and s capslock_bit == 0)
    else bit_and s capslock_bit == 0

-- A key of a letter, with control not held and no escape before it.
abbrev pub is_letter : (s code : ℕ) → Bool
is_letter s code =
    (leb 97 (normalmap code) && leb (normalmap code) 122)
    && (bit_and s (bit_or ctl_bit e0esc_bit) == 0)

abbrev pub letter : (s code : ℕ) → ℕ
letter s code = if is_upper s then normalmap code - 32 else normalmap code

then_right : (a b : Bool) → (if a then b else true) ≡ true → a ≡ true → b ≡ true
then_right true b h e = h
then_right false b h e = cc

abbrev typed : (s code : ℕ) → Bool
typed s code =
    if is_letter s code
    then ((ps2_kbd_getc 1 code s).0 == letter s code) && ((ps2_kbd_getc 1 code s).1 == s)
    else true

typed_table : on_bytes 128 typed ≡ true
unfolding ps2_kbd_getc unpress press change_case charcode normalmap shiftmap ctlmap shiftcode
    togglecode
typed_table = refl

-- Pressing the key of a letter, with control not held and no escape before it, gives the letter in
-- upper case when a shift key is held or caps lock is on but not both, in lower case otherwise, and
-- leaves the state as it was.
pub ps2_kbd_getc-letter :
    (s code : ℕ)
    → s < 128
    → code < 256
    → is_letter s code ≡ true
    → ps2_kbd_getc 1 code s ≡ (letter s code, s)
ps2_kbd_getc-letter s code small byte is =
    let r = ps2_kbd_getc 1 code s in
    let run = on_bytes_at 128 typed s code typed_table small byte in
    let both : ((r.0 == letter s code) && (r.1 == s)) ≡ true =
      then_right (is_letter s code) ((r.0 == letter s code) && (r.1 == s)) run is in
    let value : r.0 ≡ letter s code =
      (==_iff r.0 (letter s code)).0 (and_left (r.0 == letter s code) (r.1 == s) both) in
    let state : r.1 ≡ s = (==_iff r.1 s).0 (and_right (r.0 == letter s code) (r.1 == s) both) in
    ap₂ (λ (a : ℕ) (b : ℕ). (a, b)) value state
