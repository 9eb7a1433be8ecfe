-- ===== src/Screen.antt =====
-- The text console on the framebuffer: kernel/src/gui/screen.c, and the writes of standard output,
-- `stdoutWrite` of kernel/src/fs/std.c.
pub mod Pixels
pub mod Cursor
mod Tests
use omega_os.Base.{
  ℕ, zero, suc, ◌+◌, ◌-◌, ◌*◌, ◌/◌, ◌%◌, ◌^◌, Bool, true, false, ◌&&◌, Option, none, some, ltb, leb,
  ◌==◌, if◌then◌else◌, put, add64,
}
use omega_os.Strings.{Mem, memset}

-- A `Framebuffer_t`.
pub record Framebuffer : Type 0 where
  pub base_address : ℕ
  pub buffer_size : ℕ
  pub width : ℕ
  pub height : ℕ
  pub pixels_per_scan_line : ℕ
  pub bytes_per_pixel : ℕ

-- A `PSF1Font_t`, of its header the size of a character.
pub record Font : Type 0 where
  pub charsize : ℕ
  pub glyph_buffer : ℕ

-- The file's static variables and the memory.
pub record Screen : Type 0 where
  pub fb : Framebuffer
  pub font : Font
  pub pitch : ℕ
  pub x : ℕ
  pub y : ℕ
  pub fg : ℕ
  pub bg : ℕ
  pub mem : Mem

abbrev pub byte_size : ℕ
byte_size = 8

abbrev pub bytes_per_char : ℕ
bytes_per_char = 16

abbrev pub chars_per_tab : ℕ
chars_per_tab = 4

abbrev pub black : ℕ
black = 0

abbrev pub white : ℕ
white = 0xFFFFFF

-- `uint32_t` arithmetic.
abbrev pub add32 : ℕ → ℕ → ℕ
add32 a b = (a + b) % 2 ^ 32

abbrev pub sub32 : ℕ → ℕ → ℕ
sub32 a b = (a + 2 ^ 32 - b) % 2 ^ 32

abbrev pub mul32 : ℕ → ℕ → ℕ
mul32 a b = (a * b) % 2 ^ 32

-- A store of a `uint32_t`, the low byte first.
unfoldable pub write32 : (at value : ℕ) → Mem → Mem
write32 at value mem =
    put
      (put (put (put mem at (value % 256)) (add64 at 1) (value / 2 ^ 8 % 256)) (add64 at 2)
        (value / 2 ^ 16 % 256))
      (add64 at 3) (value / 2 ^ 24 % 256)

unfoldable pub draw_pixel : (x y color : ℕ) → Screen → Screen
draw_pixel x y color s = record s {
  mem =
      write32 (add64 (add64 s.fb.base_address (mul32 y s.pitch)) (mul32 x s.fb.bytes_per_pixel))
        color s.mem;
}

-- Is bit `7 - column` of the byte at `ptr` set?
unfoldable pub glyph_bit : Mem → (ptr column : ℕ) → Bool
glyph_bit mem ptr column = mem ptr / 2 ^ (7 - column) % 2 == 1

-- The loops of `drawc` over the columns and the rows of a glyph, with `n` rounds left.
unfoldable pub draw_columns : (n x y ptr : ℕ) → Screen → Screen
draw_columns zero x y ptr s = s
draw_columns (suc n) x y ptr s =
    draw_columns n (x + 1) y ptr
      (draw_pixel x y (if glyph_bit s.mem ptr (x - s.x) then s.fg else s.bg) s)

unfoldable pub draw_rows : (n y ptr : ℕ) → Screen → Screen
draw_rows zero y ptr s = s
draw_rows (suc n) y ptr s =
    draw_rows n (y + 1) (add64 ptr 1) (draw_columns (add32 s.x byte_size - s.x) s.x y ptr s)

-- Where the glyph of the `char` starts; a `char` is signed.
unfoldable pub glyph_at : Font → ℕ → ℕ
glyph_at font c =
    if ltb c 128
    then add64 font.glyph_buffer (c * font.charsize)
    else (font.glyph_buffer + 2 ^ 64 - (256 - c) * font.charsize) % 2 ^ 64

-- The step of `g_x` and `g_y` behind a glyph.
unfoldable pub advance : Screen → Screen
advance s =
    let x = add32 s.x byte_size in
    if ltb s.fb.width (add32 x byte_size)
    then record s { x = 0; y = add32 s.y bytes_per_char }
    else record s { x = x }

unfoldable pub drawc : (c : ℕ) → Screen → Screen
drawc c s = advance (draw_rows (add32 s.y bytes_per_char - s.y) s.y (glyph_at s.font c) s)

-- The loops of `screen_fillrect`, with `n` rounds left.
unfoldable pub fill_column : (n i j color : ℕ) → Screen → Screen
fill_column zero i j color s = s
fill_column (suc n) i j color s = fill_column n i (j + 1) color (draw_pixel i j color s)

unfoldable pub fill_columns : (n i y h color : ℕ) → Screen → Screen
fill_columns zero i y h color s = s
fill_columns (suc n) i y h color s =
    fill_columns n (i + 1) y h color (fill_column (add32 y h - y) i y color s)

unfoldable pub screen_fillrect : (x y w h color : ℕ) → Screen → Screen
screen_fillrect x y w h color s = fill_columns (add32 x w - x) x y h color s

unfoldable pub screen_clear : (color : ℕ) → Screen → Screen
screen_clear color s0 =
    let s = record s0 { bg = color } in
    let cleared =
      if color == black
      then record s { mem = memset s.fb.base_address 0 s.fb.buffer_size s.mem }
      else screen_fillrect 0 0 s.fb.width s.fb.height color s in
    record cleared { x = 0; y = 0 }

unfoldable pub screen_init : Framebuffer → Font → Screen → Screen
screen_init fb font s = screen_clear black (record s {
  fb = fb;
  font = font;
  pitch = mul32 fb.bytes_per_pixel fb.pixels_per_scan_line;
  fg = white;
  bg = black;
})

unfoldable pub scroll : Screen → Screen
scroll s = screen_clear black s

unfoldable pub newline : Screen → Screen
newline s = record s { x = 0; y = add32 s.y bytes_per_char }

-- The case of the tab, which falls into the next one when the line ends.
unfoldable pub tab : Screen → Screen
tab s =
    let t = record s { x = add32 s.x (byte_size * chars_per_tab) } in
    if leb (add32 t.x byte_size) t.fb.width then t else newline t

unfoldable pub backspace : Screen → Screen
backspace s =
    if (s.y == 0) && (s.x == 0)
    then s
    else if s.x == 0
    then record s { x = s.fb.width; y = sub32 s.y 1 }
    else record s { x = sub32 s.x byte_size }

-- The `switch` of `screen_putc`.
unfoldable pub put_char : (c : ℕ) → Screen → Screen
put_char c s =
    if c == 9
    then tab s
    else if c == 10
    then newline s
    else if c == 8
    then backspace s
    else if c == 0
    then s
    else drawc c s

unfoldable pub screen_putc : (c : ℕ) → Screen → Screen
screen_putc c s = put_char c (if ltb s.fb.height (add32 s.y bytes_per_char) then scroll s else s)

-- The loop of `stdoutWrite`, with `n` rounds left, and the function.
unfoldable pub put_chars : (buffer n i : ℕ) → Screen → Screen
put_chars buffer zero i s = s
put_chars buffer (suc n) i s = put_chars buffer n (i + 1) (screen_putc (s.mem (buffer + i)) s)

unfoldable pub stdout_write : (size buffer : ℕ) → Screen → ℕ × Screen
stdout_write size buffer s = (size, put_chars buffer size 0 s)

-- The loop of `screen_puts`, which ends at a null byte: `none` when the fuel does not suffice.
unfoldable pub screen_puts : (fuel at : ℕ) → Screen → Option Screen
screen_puts zero at s = none
screen_puts (suc fuel) at s =
    let rest = screen_puts fuel (at + 1) (screen_putc (s.mem at) s) in
    if s.mem at == 0 then some s else rest
