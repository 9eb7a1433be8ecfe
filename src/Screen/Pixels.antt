-- ===== src/Screen/Pixels.antt =====
-- The drawing loops of kernel/src/gui/screen.c stay inside the framebuffer.
use native.Mathlib.Nat.{mul-le-mul_right}
use omega_os.Base.{
  ℕ, zero, suc, ◌+◌, ◌-◌, ◌*◌, ◌^◌, ◌≤◌, ◌<◌, ◌≡◌, ◌⊎◌, inl, inr, refl, ◌∙◌, if◌then◌else◌, add64,
  arith,
}
use omega_os.Strings.{Mem}
use omega_os.Screen.{
  Framebuffer, Screen, mul32, add32, write32, draw_pixel, glyph_bit, draw_columns, draw_rows,
  byte_size,
}

-- What the boot loader promises of a framebuffer: a pixel has room for a `uint32_t`, a line for the
-- pixels of the width, the buffer for the lines of the height, and there is room for one glyph. The
-- sizes do not overflow.
pub record IsFitted (fb : Framebuffer) (pitch : ℕ) : Type 0 where
  pub bytes : 4 ≤ fb.bytes_per_pixel
  pub pitch_of_line : pitch ≡ fb.bytes_per_pixel * fb.pixels_per_scan_line
  pub line : fb.width ≤ fb.pixels_per_scan_line
  pub lines : fb.height * pitch ≤ fb.buffer_size
  pub small : fb.height * pitch < 2 ^ 32
  pub inside : fb.base_address + fb.buffer_size < 2 ^ 64
  pub wide : 8 ≤ fb.width
  pub narrow : fb.width < 2 ^ 31
  pub tall : 16 ≤ fb.height
  pub low : fb.height < 2 ^ 31

-- The memory outside the framebuffer has not changed.
abbrev pub OnlyInside : Framebuffer → (m m' : Mem) → Type 0
OnlyInside fb m m' =
    (a : ℕ) → (a < fb.base_address) ⊎ (fb.base_address + fb.buffer_size ≤ a) → m' a ≡ m a

write32-outside :
    (at value a : ℕ) (m : Mem)
    → at + 4 ≤ 2 ^ 64
    → (a < at) ⊎ (at + 4 ≤ a)
    → write32 at value m a ≡ m a
unfolding write32
write32-outside at value a m small (inl h) = ground arith
write32-outside at value a m small (inr h) = ground arith

module _ (fb : Framebuffer) (pitch : ℕ) (fit : IsFitted fb pitch) where
  -- What drawing keeps, besides the colours and the font.
  pub record Drawn (s s' : Screen) : Type 0 where
    pub fb_kept : s'.fb ≡ fb
    pub pitch_kept : s'.pitch ≡ pitch
    pub x_kept : s'.x ≡ s.x
    pub y_kept : s'.y ≡ s.y
    pub outside : OnlyInside fb s.mem s'.mem

  Drawn-trans : (s t u : Screen) → Drawn s t → Drawn t u → Drawn s u
  Drawn-trans s t u d e = record {
    fb_kept = e.fb_kept;
    pitch_kept = e.pitch_kept;
    x_kept = e.x_kept ∙ d.x_kept;
    y_kept = e.y_kept ∙ d.y_kept;
    outside = λ a out. e.outside a out ∙ d.outside a out;
  }

  pixel_offset :
      (x y : ℕ)
      → x < fb.width
      → y < fb.height
      → y * pitch + x * fb.bytes_per_pixel + 4 ≤ fb.height * pitch
  pixel_offset x y hx hy =
      let rows : (y + 1) * pitch ≤ fb.height * pitch = mul-le-mul_right pitch (omega arith) in
      let columns : (x + 1) * fb.bytes_per_pixel ≤ fb.pixels_per_scan_line * fb.bytes_per_pixel =
        mul-le-mul_right fb.bytes_per_pixel (omega (arith, fit.line)) in
      omega (arith, fit.pitch_of_line, fit.bytes)

  draw_pixel-Drawn :
      (x y color : ℕ) (s : Screen)
      → s.fb ≡ fb
      → s.pitch ≡ pitch
      → x < fb.width
      → y < fb.height
      → Drawn s (draw_pixel x y color s)
  unfolding draw_pixel
  draw_pixel-Drawn x y color s ef ep hx hy = record {
    fb_kept = ef;
    pitch_kept = ep;
    x_kept = refl;
    y_kept = refl;
    outside = λ a out. rw (ef, ep, address) (kept a out);
  }
    where
      bound : y * pitch + x * fb.bytes_per_pixel + 4 ≤ fb.height * pitch
      bound = pixel_offset x y hx hy

      address :
          add64 (add64 fb.base_address (mul32 y pitch)) (mul32 x fb.bytes_per_pixel)
          ≡ fb.base_address + y * pitch + x * fb.bytes_per_pixel
      address = omega (arith, bound, fit.small, fit.lines, fit.inside)

      kept :
          (a : ℕ)
          → (a < fb.base_address) ⊎ (fb.base_address + fb.buffer_size ≤ a)
          → write32 (fb.base_address + y * pitch + x * fb.bytes_per_pixel) color s.mem a ≡ s.mem a
      kept a (inl h) =
          write32-outside (fb.base_address + y * pitch + x * fb.bytes_per_pixel) color a s.mem
            (omega (arith, bound, fit.lines, fit.inside)) (inl (omega arith))
      kept a (inr h) =
          write32-outside (fb.base_address + y * pitch + x * fb.bytes_per_pixel) color a s.mem
            (omega (arith, bound, fit.lines, fit.inside)) (inr (omega (arith, bound, fit.lines)))

  draw_columns-Drawn :
      (n x y ptr : ℕ) (s : Screen)
      → s.fb ≡ fb
      → s.pitch ≡ pitch
      → x + n ≤ fb.width
      → y < fb.height
      → Drawn s (draw_columns n x y ptr s)
  unfolding draw_columns
  draw_columns-Drawn zero x y ptr s ef ep hx hy = record {
    fb_kept = ef;
    pitch_kept = ep;
    x_kept = refl;
    y_kept = refl;
    outside = λ a out. refl;
  }
  draw_columns-Drawn (suc n) x y ptr s ef ep hx hy =
      let color = if glyph_bit s.mem ptr (x - s.x) then s.fg else s.bg in
      let t = draw_pixel x y color s in
      let d : Drawn s t = draw_pixel-Drawn x y color s ef ep (omega arith) hy in
      Drawn-trans s t (draw_columns n (x + 1) y ptr t) d
        (draw_columns-Drawn n (x + 1) y ptr t d.fb_kept d.pitch_kept (omega arith) hy)

  pub draw_rows-Drawn :
      (n y ptr : ℕ) (s : Screen)
      → s.fb ≡ fb
      → s.pitch ≡ pitch
      → s.x + 8 ≤ fb.width
      → y + n ≤ fb.height
      → Drawn s (draw_rows n y ptr s)
  unfolding draw_rows
  draw_rows-Drawn zero y ptr s ef ep hx hy = record {
    fb_kept = ef;
    pitch_kept = ep;
    x_kept = refl;
    y_kept = refl;
    outside = λ a out. refl;
  }
  draw_rows-Drawn (suc n) y ptr s ef ep hx hy =
      let t = draw_columns (add32 s.x byte_size - s.x) s.x y ptr s in
      let d : Drawn s t =
        draw_columns-Drawn (add32 s.x byte_size - s.x) s.x y ptr s ef ep (omega (arith, fit.narrow))
          (omega arith) in
      Drawn-trans s t (draw_rows n (y + 1) (add64 ptr 1) t) d (
        draw_rows-Drawn n (y + 1) (add64 ptr 1) t d.fb_kept d.pitch_kept (omega (arith, d.x_kept))
          (omega arith))
