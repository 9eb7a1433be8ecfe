-- ===== src/Ext2/Allocate/Bitmap.antt =====
-- `FIND_AND_MARK_BIT` and `CLEAR_BIT` of kernel/src/fs/ext2.c.
use omega_os.Base.{
  evaluate, evaluate_at, ℕ, zero, suc, ◌+◌, ◌*◌, ◌/◌, ◌%◌, ◌≤◌, ◌<◌, ◌≡◌, ◌≢◌, inl, inr, refl, sym,
  subst, ◌∙◌, ap, Bool, true, false, not, Option, none, some, ltb, ◌==◌, ==_iff, if◌then◌else◌, put,
  put_at, put_other, dec_lt, Bool-cases, Option-cases, arith,
}
use omega_os.Base.Run.{ok}
use omega_os.Ide.{Buffer}
use omega_os.Ext2.{Ext2}
use omega_os.Ext2.Allocate.{
  test_bit, set_bit, reset_bit, find_in_byte, find_bit, or_else, mark_bit, with_mark,
  find_and_mark_bit, clear_bit,
}

-- Bit `b` of a bitmap.
abbrev pub bit_at : Buffer → ℕ → Bool
bit_at bitmap b = test_bit (bitmap (b / 8)) (b % 8)

full_table : evaluate (test_bit 255) 8 ≡ true
unfolding test_bit
full_table = refl

abbrev same_bool : Bool → Bool → Bool
same_bool true b = b
same_bool false b = not b

same_bool-eq : (a b : Bool) → same_bool a b ≡ true → a ≡ b
same_bool-eq true true h = refl
same_bool-eq true false h = cc
same_bool-eq false true h = cc
same_bool-eq false false h = refl

-- Setting bit `j` of the byte sets it and no other, and resetting it undoes that.
abbrev sets : (x j i : ℕ) → Bool
sets x j i = same_bool (test_bit (set_bit x j) i) (if i == j then true else test_bit x i)

abbrev undoes : (x j : ℕ) → Bool
undoes x j = if test_bit x j then true else reset_bit (set_bit x j) j == x

sets_table : evaluate (λ x. evaluate (λ j. evaluate (sets x j) 8) 8) 256 ≡ true
unfolding test_bit set_bit
sets_table = refl

undoes_table : evaluate (λ x. evaluate (undoes x) 8) 256 ≡ true
unfolding test_bit set_bit reset_bit
undoes_table = refl

test_bit-set_bit :
    (x j i : ℕ)
    → x < 256
    → j < 8
    → i < 8
    → test_bit (set_bit x j) i ≡ (if i == j then true else test_bit x i)
test_bit-set_bit x j i hx hj hi =
    let of_byte = evaluate_at (λ x. evaluate (λ j. evaluate (sets x j) 8) 8) 256 x hx sets_table in
    let of_bit = evaluate_at (λ j. evaluate (sets x j) 8) 8 j hj of_byte in
    same_bool-eq (test_bit (set_bit x j) i) (if i == j then true else test_bit x i)
      (evaluate_at (sets x j) 8 i hi of_bit)

reset_bit-set_bit :
    (x j : ℕ) → x < 256 → j < 8 → test_bit x j ≡ false → reset_bit (set_bit x j) j ≡ x
reset_bit-set_bit x j hx hj e =
    let of_byte = evaluate_at (λ x. evaluate (undoes x) 8) 256 x hx undoes_table in
    let of_bit = evaluate_at (undoes x) 8 j hj of_byte in
    (==_iff (reset_bit (set_bit x j) j) x).0
      (subst (λ b. (if b then true else reset_bit (set_bit x j) j == x) ≡ true) e of_bit)

-- The search in a byte: no clear bit, or the lowest one.
abbrev InByte : (byte n j : ℕ) → Option ℕ → Type 0
InByte byte n j none = (i : ℕ) → j ≤ i → i < j + n → test_bit byte i ≡ true
InByte byte n j (some f) =
    (j ≤ f)
    × (f < j + n)
    × (test_bit byte f ≡ false)
    × ((i : ℕ) → j ≤ i → i < f → test_bit byte i ≡ true)

InByte-step :
    (byte n j : ℕ) (o : Option ℕ)
    → test_bit byte j ≡ true
    → InByte byte n (j + 1) o
    → InByte byte (suc n) j o
InByte-step byte n j none e h = λ i lo hi. elim (dec_lt j i) [
  | yes p ↦ h i (omega arith) (omega arith)
  | no p ↦ ap (test_bit byte) (omega arith) ∙ e
]
InByte-step byte n j (some f) e (lo, hi, clear, below) = (
  omega arith,
  omega arith,
  clear,
  λ i a b. elim (dec_lt j i) [
    | yes p ↦ below i (omega arith) b
    | no p ↦ ap (test_bit byte) (omega arith) ∙ e
  ],
)

find_in_byte-InByte : (byte n j : ℕ) → InByte byte n j (find_in_byte byte n j)
unfolding find_in_byte
find_in_byte-InByte byte zero j = λ i lo hi. absurd (omega arith)
find_in_byte-InByte byte (suc n) j = elim (Bool-cases (test_bit byte j)) [
  | inl e ↦
      rw (find_in_byte, e)
        (InByte-step byte n j (find_in_byte byte n (j + 1)) e (find_in_byte-InByte byte n (j + 1)))
  | inr e ↦ rw (find_in_byte, e) (omega arith, omega arith, e, λ i lo hi. absurd (omega arith))
]

-- The search in a bitmap.
abbrev pub LowestClear : Buffer → (lo hi : ℕ) → Option ℕ → Type 0
LowestClear bitmap lo hi none = (b : ℕ) → lo ≤ b → b < hi → bit_at bitmap b ≡ true
LowestClear bitmap lo hi (some f) =
    (lo ≤ f)
    × (f < hi)
    × (bit_at bitmap f ≡ false)
    × ((b : ℕ) → lo ≤ b → b < f → bit_at bitmap b ≡ true)

-- A byte without a clear bit is passed over.
LowestClear-skip :
    (bitmap : Buffer) (n k : ℕ) (o : Option ℕ)
    → ((i : ℕ) → i < 8 → test_bit (bitmap k) i ≡ true)
    → LowestClear bitmap (8 * (k + 1)) (8 * (k + 1 + n)) o
    → LowestClear bitmap (8 * k) (8 * (k + suc n)) o
LowestClear-skip bitmap n k none full h = λ b lo hi. elim (dec_lt b (8 * k + 8)) [
  | yes p ↦ ap (λ x. test_bit (bitmap x) (b % 8)) (omega arith) ∙ full (b % 8) (omega arith)
  | no p ↦ h b (omega arith) (omega arith)
]
LowestClear-skip bitmap n k (some f) full (lo, hi, clear, below) = (
  omega arith,
  omega arith,
  clear,
  λ b a c. elim (dec_lt b (8 * k + 8)) [
    | yes p ↦ ap (λ x. test_bit (bitmap x) (b % 8)) (omega arith) ∙ full (b % 8) (omega arith)
    | no p ↦ below b (omega arith) c
  ],
)

-- The byte at hand is searched before the rest.
LowestClear-or_else :
    (bitmap : Buffer) (n k : ℕ) (o rest : Option ℕ)
    → InByte (bitmap k) 8 0 o
    → LowestClear bitmap (8 * (k + 1)) (8 * (k + 1 + n)) rest
    → LowestClear bitmap (8 * k) (8 * (k + suc n)) (or_else o k rest)
LowestClear-or_else bitmap n k none rest h later =
    LowestClear-skip bitmap n k rest (λ i c. h i (omega arith) (omega arith)) later
LowestClear-or_else bitmap n k (some f) rest (lo, hi, clear, below) later = (
  omega arith,
  omega arith,
  ap (λ x. test_bit (bitmap x) ((8 * k + f) % 8)) (omega arith)
      ∙ ap (test_bit (bitmap k)) (omega arith)
      ∙ clear,
  λ b a c.
      ap (λ x. test_bit (bitmap x) (b % 8)) (omega arith)
      ∙ below (b % 8) (omega arith) (omega arith),
)

find_bit-LowestClear :
    (bitmap : Buffer) (n k : ℕ) → LowestClear bitmap (8 * k) (8 * (k + n)) (find_bit bitmap n k)
unfolding find_bit
find_bit-LowestClear bitmap zero k = λ b lo hi. absurd (omega arith)
find_bit-LowestClear bitmap (suc n) k =
    let later = find_bit-LowestClear bitmap n (k + 1) in
    elim (Bool-cases (bitmap k == 255)) [
      | inl e ↦
          rw (find_bit, e)
            (LowestClear-skip bitmap n k (find_bit bitmap n (k + 1))
              (λ i h.
                ap (λ x. test_bit x i) ((==_iff (bitmap k) 255).0 e)
                ∙ evaluate_at (test_bit 255) 8 i h full_table)
              later)
      | inr e ↦
          rw (find_bit, e)
            (LowestClear-or_else bitmap n k (find_in_byte (bitmap k) 8 0)
              (find_bit bitmap n (k + 1)) (find_in_byte-InByte (bitmap k) 8 0) later)
    ]

bit_at-mark_bit :
    (bitmap : Buffer) (f b : ℕ)
    → bitmap (f / 8) < 256
    → bit_at (mark_bit bitmap f) b ≡ (if b == f then true else bit_at bitmap b)
bit_at-mark_bit bitmap f b small = elim (Bool-cases (b / 8 == f / 8)) [
  | inl e ↦
      let same : b / 8 ≡ f / 8 = (==_iff (b / 8) (f / 8)).0 e in
      let tests : (b % 8 == f % 8) ≡ (b == f) = ground arith in
      ap (λ x. test_bit (mark_bit bitmap f x) (b % 8)) same
      ∙ ap (λ x. test_bit x (b % 8)) (put_at bitmap (f / 8) (set_bit (bitmap (f / 8)) (f % 8)))
      ∙ test_bit-set_bit (bitmap (f / 8)) (f % 8) (b % 8) small (omega arith) (omega arith)
      ∙ ap (λ t. if t then true else test_bit (bitmap (f / 8)) (b % 8)) tests
      ∙ ap (λ x. if b == f then true else test_bit (bitmap x) (b % 8)) (sym same)
  | inr e ↦
      let ne : b / 8 ≢ f / 8 = ground arith in
      let other : (b == f) ≡ false = ground arith in
      rw other (
        ap (λ x. test_bit x (b % 8))
          (put_other bitmap (f / 8) (set_bit (bitmap (f / 8)) (f % 8)) (b / 8) ne))
]

-- The bits of the bitmap's `bytes` bytes are all set, or the result is the lowest clear one and the
-- bitmap with it and no other bit set.
abbrev pub Marked : (bytes : ℕ) (bitmap : Buffer) → Option (ℕ × Buffer) → Type 0
Marked bytes bitmap none = (b : ℕ) → b < 8 * bytes → bit_at bitmap b ≡ true
Marked bytes bitmap (some (f, bitmap')) =
    (f < 8 * bytes)
    × (bit_at bitmap f ≡ false)
    × ((b : ℕ) → b < f → bit_at bitmap b ≡ true)
    × ((b : ℕ) → bit_at bitmap' b ≡ (if b == f then true else bit_at bitmap b))

-- `FIND_AND_MARK_BIT` on a bitmap of bytes: it finds nothing exactly when every bit is set, and
-- otherwise the lowest clear bit, inside the bitmap, which it sets, and no other.
pub find_and_mark_bit-Marked :
    (bytes : ℕ) (bitmap : Buffer)
    → ((k : ℕ) → bitmap k < 256)
    → Marked bytes bitmap (find_and_mark_bit bytes bitmap)
unfolding find_and_mark_bit
find_and_mark_bit-Marked bytes bitmap small =
    let found = find_bit-LowestClear bitmap bytes 0 in
    elim (Option-cases (find_bit bitmap bytes 0)) [
      | inl e ↦
          let h = subst (LowestClear bitmap (8 * 0) (8 * (0 + bytes))) e found in
          rw (find_and_mark_bit, e) (λ b lt. h b (omega arith) (omega arith))
      | inr (f, e) ↦
          let (lo, hi, clear, below) =
            subst (LowestClear bitmap (8 * 0) (8 * (0 + bytes))) e found in
          rw (find_and_mark_bit, e)
            (
              omega arith,
              clear,
              λ b lt. below b (omega arith) lt,
              λ b. bit_at-mark_bit bitmap f b (small (f / 8)),
            )
    ]

found_is_marked :
    (bitmap bitmap' : Buffer) (f : ℕ) (o : Option ℕ)
    → with_mark bitmap o ≡ some (f, bitmap')
    → bitmap' ≡ mark_bit bitmap f
found_is_marked bitmap bitmap' f none found = cc
found_is_marked bitmap bitmap' f (some g) found =
    let same : g ≡ f = cc in
    let kept : mark_bit bitmap g ≡ bitmap' = cc in sym kept ∙ ap (mark_bit bitmap) same

-- `CLEAR_BIT` of the bit that `FIND_AND_MARK_BIT` found gives the bitmap back.
pub clear_bit-find_and_mark_bit :
    (s : Ext2) (bitmap bitmap' : Buffer) (f : ℕ)
    → ((k : ℕ) → bitmap k < 256)
    → find_and_mark_bit s.block_size bitmap ≡ some (f, bitmap')
    → (back : Buffer) × (clear_bit bitmap' f s ≡ ok back s) × ((k : ℕ) → back k ≡ bitmap k)
unfolding clear_bit find_and_mark_bit
clear_bit-find_and_mark_bit s bitmap bitmap' f small found =
    let (inside, clear, below, bits) : Marked s.block_size bitmap (some (f, bitmap')) =
      subst (Marked s.block_size bitmap) found
        (find_and_mark_bit-Marked s.block_size bitmap small) in
    let inner : ltb (f / 8) s.block_size ≡ true = ground arith in
    let marked = found_is_marked bitmap bitmap' f (find_bit bitmap s.block_size 0) found in
    let at : bitmap' (f / 8) ≡ set_bit (bitmap (f / 8)) (f % 8) =
      ap (λ (m : Buffer). m (f / 8)) marked
      ∙ put_at bitmap (f / 8) (set_bit (bitmap (f / 8)) (f % 8)) in
    let undone : reset_bit (bitmap' (f / 8)) (f % 8) ≡ bitmap (f / 8) =
      ap (λ x. reset_bit x (f % 8)) at
      ∙ reset_bit-set_bit (bitmap (f / 8)) (f % 8) (small (f / 8)) (omega arith) clear in
    (
      put bitmap' (f / 8) (reset_bit (bitmap' (f / 8)) (f % 8)),
      rw inner refl,
      λ k. elim (Bool-cases (k == f / 8)) [
        | inl e ↦ rw e (undone ∙ ap bitmap (sym ((==_iff k (f / 8)).0 e)))
        | inr e ↦ rw e (
            ap (λ (m : Buffer). m k) marked
            ∙ put_other bitmap (f / 8) (set_bit (bitmap (f / 8)) (f % 8)) k (ground arith))
      ],
    )
