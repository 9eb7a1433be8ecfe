-- ===== src/Screen/Tests.antt =====
-- The console on a framebuffer of two glyphs by two.
use omega_os.Base.{◌≡◌, refl, inl, arith, ◌==◌, if◌then◌else◌}
use omega_os.Screen.{Framebuffer, Screen, screen_putc, put_char, backspace, stdout_write}
use omega_os.Screen.Pixels.{IsFitted}
use omega_os.Screen.Cursor.{IsPlaced, Safe, screen_putc-Safe, stdout_write-Safe}

abbrev small_fb : Framebuffer
small_fb = record {
  base_address = 4096;
  buffer_size = 2048;
  width = 16;
  height = 32;
  pixels_per_scan_line = 16;
  bytes_per_pixel = 4;
}

abbrev small : Screen
small = record {
  fb = small_fb;
  font = record { charsize = 16; glyph_buffer = 65536 };
  pitch = 64;
  x = 0;
  y = 16;
  fg = 0xFFFFFF;
  bg = 0;
  mem = λ a. if a == 101 then 9 else 65;
}

small-IsFitted : IsFitted small_fb 64
small-IsFitted = record {
  bytes = omega arith;
  pitch_of_line = refl;
  line = omega arith;
  lines = omega arith;
  small = omega arith;
  inside = omega arith;
  wide = omega arith;
  narrow = omega arith;
  tall = omega arith;
  low = omega arith;
}

small-IsPlaced : IsPlaced small_fb 64 small
small-IsPlaced = record {
  frame = refl;
  pitched = refl;
  column = omega arith;
  grid = refl;
  line = omega arith;
}

screen_putc-Safe_example : Safe small_fb 64 small (screen_putc 65 small)
screen_putc-Safe_example =
    screen_putc-Safe small_fb 64 small-IsFitted 65 small small-IsPlaced (λ e. absurd (omega arith))

stdout_write-Safe_example :
    (s' : Screen) × (stdout_write 3 100 small ≡ (3, s')) × Safe small_fb 64 small s'
stdout_write-Safe_example =
    stdout_write-Safe small_fb 64 small-IsFitted 3 100 small small-IsPlaced (inl (omega arith))
      (λ k h. ground arith)

-- A backspace at the start of a line leaves it behind the last column, one pixel higher.
backspace_astray : (screen_putc 8 small).x ≡ 16
unfolding screen_putc put_char backspace
backspace_astray = refl

backspace_higher : (screen_putc 8 small).y ≡ 15
unfolding screen_putc put_char backspace
backspace_higher = refl
