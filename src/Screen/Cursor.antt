-- ===== src/Screen/Cursor.antt =====
-- Where `screen_putc` of kernel/src/gui/screen.c leaves the cursor, and what `stdoutWrite` of
-- kernel/src/fs/std.c leaves of the memory.
use omega_os.Base.{
  ℕ, zero, suc, ◌+◌, ◌%◌, ◌≤◌, ◌<◌, ◌≡◌, ◌≢◌, ◌⊎◌, inl, inr, refl, ap, ◌-◌, ◌∙◌, sym, true, false,
  ◌&&◌, ltb, leb, ◌==◌, Bool-cases, arith,
}
use omega_os.Strings.{Mem, memset}
use omega_os.Strings.Moves.{memset-lem}
use omega_os.Screen.{
  Framebuffer, Screen, add32, draw_rows, glyph_at, advance, drawc, screen_clear, scroll, newline,
  tab, backspace, put_char, screen_putc, put_chars, stdout_write, bytes_per_char, byte_size,
}
use omega_os.Screen.Pixels.{IsFitted, OnlyInside, Drawn, draw_rows-Drawn}

module _ (fb : Framebuffer) (pitch : ℕ) where
  -- The next glyph fits into its line, on a column of the grid, and the line starts on the screen.
  pub record IsPlaced (s : Screen) : Type 0 where
    pub frame : s.fb ≡ fb
    pub pitched : s.pitch ≡ pitch
    pub column : s.x + 8 ≤ fb.width
    pub grid : s.x % 8 ≡ 0
    pub line : s.y ≤ fb.height

  -- The cursor is placed and nothing outside the framebuffer has changed.
  abbrev pub Safe : (s s' : Screen) → Type 0
  Safe s s' = IsPlaced s' × OnlyInside fb s.mem s'.mem

module _ (fb : Framebuffer) (pitch : ℕ) (fit : IsFitted fb pitch) where
  unchanged : (m : Mem) → OnlyInside fb m m
  unchanged m a out = refl

  advance-IsPlaced :
      (s : Screen) → IsPlaced fb pitch s → s.y + 16 ≤ fb.height → Safe fb pitch s (advance s)
  unfolding advance
  advance-IsPlaced s p room =
      elim (Bool-cases (ltb s.fb.width (add32 (add32 s.x byte_size) byte_size))) [
        | inl e ↦ rw e (
          record {
            frame = p.frame;
            pitched = p.pitched;
            column = omega (arith, fit.wide);
            grid = refl;
            line = omega (arith, fit.low);
          },
          unchanged s.mem,
        )
        | inr e ↦
            let fits : s.x + 16 ≤ fb.width =
              (let e' : ltb fb.width (add32 (add32 s.x byte_size) byte_size) ≡ false =
                  rw (← p.frame) e in
                ground (arith, p.column, fit.narrow)) in
            rw e (
              record {
                frame = p.frame;
                pitched = p.pitched;
                column = omega (arith, fit.narrow);
                grid = omega (arith, p.grid, fit.narrow);
                line = p.line;
              },
              unchanged s.mem,
            )
      ]

  drawc-Safe :
      (c : ℕ) (s : Screen)
      → IsPlaced fb pitch s
      → s.y + 16 ≤ fb.height
      → Safe fb pitch s (drawc c s)
  unfolding drawc
  drawc-Safe c s p room =
      let n = add32 s.y bytes_per_char - s.y in
      let t = draw_rows n s.y (glyph_at s.font c) s in
      let d : Drawn fb pitch fit s t =
        draw_rows-Drawn fb pitch fit n s.y (glyph_at s.font c) s p.frame p.pitched p.column
          (omega (arith, fit.low)) in
      let (placed, inside) =
        advance-IsPlaced t
          (record {
            frame = d.fb_kept;
            pitched = d.pitch_kept;
            column = omega (arith, d.x_kept, p.column);
            grid = ap (λ x. x % 8) d.x_kept ∙ p.grid;
            line = omega (arith, d.y_kept, p.line);
          })
          (omega (arith, d.y_kept)) in
      (placed, λ a out. inside a out ∙ d.outside a out)

  newline-Safe :
      (s : Screen) → IsPlaced fb pitch s → s.y + 16 ≤ fb.height → Safe fb pitch s (newline s)
  unfolding newline
  newline-Safe s p room = (
    record {
      frame = p.frame;
      pitched = p.pitched;
      column = omega (arith, fit.wide);
      grid = refl;
      line = omega (arith, fit.low);
    },
    unchanged s.mem,
  )

  tab-Safe : (s : Screen) → IsPlaced fb pitch s → s.y + 16 ≤ fb.height → Safe fb pitch s (tab s)
  unfolding tab newline
  tab-Safe s p room = elim (Bool-cases (leb (add32 (add32 s.x 32) byte_size) s.fb.width)) [
    | inl e ↦
        let fits : s.x + 40 ≤ fb.width =
          (let e' : leb (add32 (add32 s.x 32) byte_size) fb.width ≡ true = rw (← p.frame) e in
            ground (arith, p.column, fit.narrow)) in
        rw e (
          record {
            frame = p.frame;
            pitched = p.pitched;
            column = omega (arith, fit.narrow);
            grid = omega (arith, p.grid, fit.narrow);
            line = p.line;
          },
          unchanged s.mem,
        )
    | inr e ↦ rw e (newline-Safe s p room)
  ]

  -- Not at the start of a line, other than the first.
  abbrev pub HasLeft : Screen → Type 0
  HasLeft s = (s.x ≢ 0) ⊎ (s.y ≡ 0)

  backspace-Safe : (s : Screen) → IsPlaced fb pitch s → HasLeft s → Safe fb pitch s (backspace s)
  unfolding backspace
  backspace-Safe s p left = elim (Bool-cases (s.x == 0)) [
    | inl e ↦
        let at_start : ((s.y == 0) && (s.x == 0)) ≡ true = ground arith in
        rw at_start (p, unchanged s.mem)
    | inr e ↦
        let inner : ((s.y == 0) && (s.x == 0)) ≡ false = ground arith in
        rw (inner, e)
          (
            record {
              frame = p.frame;
              pitched = p.pitched;
              column =
                  (let ne : s.x ≢ 0 = ground arith in omega (arith, p.grid, p.column, fit.narrow));
              grid =
                  (let ne : s.x ≢ 0 = ground arith in omega (arith, p.grid, p.column, fit.narrow));
              line = p.line;
            },
            unchanged s.mem,
          )
  ]

  put_char-Safe :
      (c : ℕ) (s : Screen)
      → IsPlaced fb pitch s
      → s.y + 16 ≤ fb.height
      → (c ≡ 8 → HasLeft s)
      → Safe fb pitch s (put_char c s)
  unfolding put_char
  put_char-Safe c s p room left = elim (Bool-cases (c == 9)) [
    | inl e ↦ rw e (tab-Safe s p room)
    | inr e9 ↦ elim (Bool-cases (c == 10)) [
      | inl e ↦ rw (e9, e) (newline-Safe s p room)
      | inr e10 ↦ elim (Bool-cases (c == 8)) [
        | inl e ↦ rw (e9, e10, e) (backspace-Safe s p (left (ground arith)))
        | inr e8 ↦ elim (Bool-cases (c == 0)) [
          | inl e ↦ rw (e9, e10, e8, e) (p, unchanged s.mem)
          | inr e ↦ rw (e9, e10, e8, e) (drawc-Safe c s p room)
        ]
      ]
    ]
  ]

  scroll_top : (s : Screen) → (scroll s).y ≡ 0
  unfolding scroll screen_clear
  scroll_top s = refl

  scroll-Safe : (s : Screen) → IsPlaced fb pitch s → Safe fb pitch s (scroll s)
  unfolding scroll screen_clear
  scroll-Safe s p = (
    record {
      frame = p.frame;
      pitched = p.pitched;
      column = omega (arith, fit.wide);
      grid = refl;
      line = omega arith;
    },
    λ a out. rw p.frame (cleared a out),
  )
    where
      cleared : OnlyInside fb s.mem (memset fb.base_address 0 fb.buffer_size s.mem)
      cleared a (inl h) = rw (memset-lem fb.base_address 0 fb.buffer_size s.mem a) (ground arith)
      cleared a (inr h) = rw (memset-lem fb.base_address 0 fb.buffer_size s.mem a) (ground arith)

  -- `screen_putc` of any character, except for a backspace at the start of a line that is not the
  -- first: on a framebuffer whose sizes fit, it leaves the cursor where the next glyph fits into its
  -- line, on a column of the grid of glyphs, in a line that starts on the screen, and it changes no
  -- byte outside the framebuffer.
  pub screen_putc-Safe :
      (c : ℕ) (s : Screen)
      → IsPlaced fb pitch s
      → (c ≡ 8 → HasLeft s)
      → Safe fb pitch s (screen_putc c s)
  unfolding screen_putc
  screen_putc-Safe c s p left = elim (Bool-cases (ltb s.fb.height (add32 s.y bytes_per_char))) [
    | inl e ↦
        let (q, inside) = scroll-Safe s p in
        let (r, outside) =
          put_char-Safe c (scroll s) q (omega (arith, scroll_top s, fit.tall))
            (λ _. inr (scroll_top s)) in
        rw e (r, λ a out. outside a out ∙ inside a out)
    | inr e ↦
        let room : s.y + 16 ≤ fb.height =
          (let e' : ltb fb.height (add32 s.y bytes_per_char) ≡ false = rw (← p.frame) e in
            ground (arith, p.line, fit.low)) in
        rw e (put_char-Safe c s p room left)
  ]

  put_chars-Safe :
      (buffer n i : ℕ) (s : Screen)
      → IsPlaced fb pitch s
      → ((k : ℕ)
          → i ≤ k
          → k < i + n
          → (buffer + k < fb.base_address) ⊎ (fb.base_address + fb.buffer_size ≤ buffer + k))
      → ((k : ℕ) → i ≤ k → k < i + n → s.mem (buffer + k) ≢ 8)
      → Safe fb pitch s (put_chars buffer n i s)
  unfolding put_chars
  put_chars-Safe buffer zero i s p apart plain = (p, unchanged s.mem)
  put_chars-Safe buffer (suc n) i s p apart plain =
      let t = screen_putc (s.mem (buffer + i)) s in
      let (q, inside) =
        screen_putc-Safe (s.mem (buffer + i)) s p
          (λ e. absurd (plain i (omega arith) (omega arith) e)) in
      let (r, outside) =
        put_chars-Safe buffer n (i + 1) t q (λ k lo hi. apart k (omega arith) (omega arith))
          (λ k lo hi e.
            plain k (omega arith) (omega arith)
              (sym (inside (buffer + k) (apart k (omega arith) (omega arith))) ∙ e)) in
      (r, λ a out. outside a out ∙ inside a out)

  -- `stdoutWrite` of a buffer that lies before the framebuffer or behind it and holds no backspace:
  -- it returns the number of bytes it was given, leaves the cursor where the next glyph fits, and
  -- changes no byte outside the framebuffer.
  pub stdout_write-Safe :
      (size buffer : ℕ) (s : Screen)
      → IsPlaced fb pitch s
      → (buffer + size ≤ fb.base_address) ⊎ (fb.base_address + fb.buffer_size ≤ buffer)
      → ((k : ℕ) → k < size → s.mem (buffer + k) ≢ 8)
      → (s' : Screen) × (stdout_write size buffer s ≡ (size, s')) × Safe fb pitch s s'
  unfolding stdout_write
  stdout_write-Safe size buffer s p apart plain = (
    put_chars buffer size 0 s,
    refl,
    put_chars-Safe buffer size 0 s p far (λ k lo hi. plain k (omega arith)),
  )
    where
      far :
          (k : ℕ)
          → 0 ≤ k
          → k < 0 + size
          → (buffer + k < fb.base_address) ⊎ (fb.base_address + fb.buffer_size ≤ buffer + k)
      far k lo hi = elim apart [ inl h ↦ inl (omega arith) | inr h ↦ inr (omega arith) ]
