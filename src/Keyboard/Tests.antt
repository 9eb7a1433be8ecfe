-- ===== src/Keyboard/Tests.antt =====
-- Keys on a keyboard with caps lock on.
use Prim.Native.Nat.{bit_and}
use omega_os.Base.{◌≡◌, refl, true, [], ◌∷◌, arith}
use omega_os.Keyboard.{ps2_kbd_getc, press, change_case, charcode, normalmap, shiftcode, togglecode}
use omega_os.Keyboard.Keys.{
  type_keys, type_keys-settles, release_all, held_bits, letter, is_letter, ps2_kbd_getc-letter,
}

-- An escape, the right control key, a left shift key and an `a`.
type_keys-settles_example :
    (bit_and (type_keys release_all (type_keys (0xE0 ∷ 0x1D ∷ 0x2A ∷ 0x1E ∷ []) 0)) held_bits ≡ 0)
    × (bit_and (type_keys release_all (type_keys (0xE0 ∷ 0x1D ∷ 0x2A ∷ 0x1E ∷ []) 0)) 56
        ≡ bit_and (type_keys (0xE0 ∷ 0x1D ∷ 0x2A ∷ 0x1E ∷ []) 0) 56)
type_keys-settles_example =
    type_keys-settles (0xE0 ∷ 0x1D ∷ 0x2A ∷ 0x1E ∷ [])
      (omega arith, (omega arith, (omega arith, (omega arith, tt))))

is_a : is_letter 8 0x1E ≡ true
unfolding normalmap
is_a = refl

ps2_kbd_getc-letter_example : ps2_kbd_getc 1 0x1E 8 ≡ (letter 8 0x1E, 8)
ps2_kbd_getc-letter_example = ps2_kbd_getc-letter 8 0x1E (omega arith) (omega arith) is_a

-- Caps lock alone: an upper case `A`.
caps_a : ps2_kbd_getc 1 0x1E 8 ≡ (65, 8)
unfolding ps2_kbd_getc press change_case charcode normalmap shiftcode togglecode
caps_a = refl
