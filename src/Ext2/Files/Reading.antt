-- ===== src/Ext2/Files/Reading.antt =====
-- What `ext2_read` of kernel/src/fs/ext2.c puts into the caller's buffer.
use native.Mathlib.Nat.{
  mul-add-div, div-eq_of_lt, mul-le-mul_left, div-add-mod, mod-lt, le-div_iff_mul-le,
  div-mul-le_self, div-le_self,
}
use omega_os.Base.{
  ℕ, zero, suc, ◌+◌, ◌-◌, ◌*◌, ◌/◌, ◌%◌, ◌^◌, ◌≤◌, ◌<◌, ◌≡◌, refl, sym, subst, ◌∙◌, ap, ap₂, Bool,
  true, false, some, ltb, leb, ◌==◌, if◌then◌else◌, add64, ==_refl, dec_lt, dec_le, arith,
}
use omega_os.Base.Run.{Run, ok}
use omega_os.Ide.{Buffer}
use omega_os.Ext2.{
  Ext2, i_size, i_block, inode_file, read_inode, copy_into, word_at, ptrs_per_block, read_block,
  sectors_per_block,
}
use omega_os.Ext2.Blocks.{read_inode_block}
use omega_os.Ext2.Blocks.Address.{
  block_byte, Readable, IsSized, Holds, read_block-Holds, layout, Resolves, pointer,
  get_real_block-layout,
}
use omega_os.Ext2.Files.{Node, Progress, first_count, read_part, read_parts, read_file, ext2_read}

-- Quotient and remainder are determined.
unique_div : (m k b j c : ℕ) → b < m → c < m → m * k + b ≡ m * j + c → (k ≡ j) × (b ≡ c)
unique_div m k b j c hb hc e =
    let pos : 0 < m = omega arith in
    let left : (m * k + b) / m ≡ k + b / m = mul-add-div pos k b in
    let right : (m * j + c) / m ≡ j + c / m = mul-add-div pos j c in
    let b0 : b / m ≡ 0 = div-eq_of_lt hb in
    let c0 : c / m ≡ 0 = div-eq_of_lt hc in
    let same : k ≡ j = omega (arith, left, right, b0, c0, ap (λ x. x / m) e) in
    (same, (let e' : m * k + b ≡ m * k + c = e ∙ ap (λ x. m * x + c) (sym same) in omega arith))

module _ (s : Ext2) (inode : Buffer) (address : ℕ → ℕ) (offset start last : ℕ) where
  -- The blocks that the loop reads have an address and can be read, whatever is in `g_tmpBuf`.
  pub record IsMapped : Type 0 where
    pub resolves :
        (tmp : Buffer) (k : ℕ)
        → start ≤ k
        → k ≤ last
        → Resolves (record s { tmp_buf = tmp }) inode k (address k)
    pub readable : (k : ℕ) → start ≤ k → k ≤ last → Readable s (address k)
    pub sized : IsSized s

  -- From `lo` to `hi` the buffer holds what the file has from `offset` on.
  abbrev pub Copied : (lo hi : ℕ) → Buffer → Type 0
  Copied lo hi out =
      (i k b : ℕ)
      → lo ≤ i
      → i < hi
      → b < s.block_size
      → s.block_size * k + b ≡ offset + i
      → out i ≡ block_byte s (address k) b

  module _ (mapped : IsMapped) where
    pub block_read :
        (tmp buf : Buffer) (k : ℕ)
        → start ≤ k
        → k ≤ last
        → (buf' : Buffer) × (tmp' : Buffer) × (read_inode_block inode k buf
              (record s { tmp_buf = tmp })
            ≡ ok (true, buf') (record s { tmp_buf = tmp' }))
          × Holds s (address k) buf'
    unfolding read_inode_block sectors_per_block block_byte
    block_read tmp buf k lo hi =
        let (tmp', found) = mapped.resolves tmp k lo hi in
        let (fine, holds) =
          read_block-Holds (address k) buf (record s { tmp_buf = tmp' }) mapped.sized
            (mapped.readable k lo hi) in
        (
          (read_block (address k) buf (record s { tmp_buf = tmp' })).1,
          tmp',
          rw (found, ← fine) refl,
          holds,
        )

    extend :
        (total n m c k : ℕ) (out out' buf : Buffer)
        → total ≡ n + m
        → Copied 0 n out
        → ((i : ℕ) → i < n → out' i ≡ out i)
        → ((b : ℕ) → b < m → out' (n + b) ≡ buf (c + b))
        → c + m ≤ s.block_size
        → offset + n ≡ s.block_size * k + c
        → Holds s (address k) buf
        → Copied 0 total out'
    extend total n m c k out out' buf whole old below above fits from holds i k' b lo hi small at =
        elim (dec_lt i n) [
          | yes h ↦ below i h ∙ old i k' b lo h small at
          | no h ↦
              let (ek, eb) =
                unique_div s.block_size k' b k (c + (i - n)) small (omega arith)
                  (at ∙ (omega (arith, from))) in
              ap out' (omega arith)
              ∙ above (i - n) (omega arith)
              ∙ holds (c + (i - n)) (omega arith)
              ∙ ap₂ (λ x y. block_byte s (address x) y) (sym ek) (sym eb)
        ]

    -- A round of the loop that goes on to `bytes` bytes.
    abbrev Went : (tmp : Buffer) (size k : ℕ) → Progress → (bytes : ℕ) → Type 0
    Went tmp size k p bytes =
        (p' : Progress) × (tmp' : Buffer) × (read_part inode offset size start last k p
            (record s { tmp_buf = tmp })
          ≡ ok (true, p') (record s { tmp_buf = tmp' }))
        × (p'.bytes ≡ bytes)
        × Copied 0 bytes p'.out

    module _ (size : ℕ) where
      first_round :
          (tmp : Buffer) (p : Progress)
          → start ≤ last
          → p.bytes ≡ 0
          → offset ≡ s.block_size * start + offset % s.block_size
          → offset % s.block_size + first_count s.block_size offset size ≤ s.block_size
          → Went tmp size start p (first_count s.block_size offset size)
      unfolding read_part
      first_round tmp p le none_read at fits =
          let (buf, tmp', run, holds) = block_read tmp p.tmp start (omega arith) le in
          let out =
            copy_into p.out 0 (first_count s.block_size offset size)
              (λ b. buf (offset % s.block_size + b)) in
          (
            record { tmp = buf; out = out; bytes = p.bytes + first_count s.block_size offset size },
            tmp',
            rw (==_refl start, run) refl,
            omega arith,
            extend (first_count s.block_size offset size) 0 (first_count s.block_size offset size)
                (offset % s.block_size) start p.out out buf (omega arith)
                (λ i k' b lo hi. absurd (omega arith)) (λ i h. absurd (omega arith))
                (λ b h. ground arith) fits (omega (arith, at)) holds,
          )

      last_round :
          (tmp : Buffer) (p : Progress)
          → start < last
          → Copied 0 p.bytes p.out
          → offset + p.bytes ≡ s.block_size * last
          → add64 offset size % s.block_size < s.block_size
          → Went tmp size last p (p.bytes + add64 offset size % s.block_size)
      unfolding read_part
      last_round tmp p lt old at fits =
          let (buf, tmp', run, holds) = block_read tmp p.tmp last (omega arith) (omega arith) in
          let m = add64 offset size % s.block_size in
          let out = copy_into p.out p.bytes m buf in
          let ne : (last == start) ≡ false = ground arith in
          (
            record { tmp = buf; out = out; bytes = p.bytes + m },
            tmp',
            rw (ne, ==_refl last, run) refl,
            refl,
            extend (p.bytes + m) p.bytes m 0 last p.out out buf refl old (λ i h. ground arith)
                (λ b h. ground arith) (omega arith) (omega (arith, at)) holds,
          )

      middle_round :
          (tmp : Buffer) (p : Progress) (k : ℕ)
          → start < k
          → k < last
          → Copied 0 p.bytes p.out
          → offset + p.bytes ≡ s.block_size * k
          → Went tmp size k p (p.bytes + s.block_size)
      unfolding read_part
      middle_round tmp p k gt lt old at =
          let (buf, tmp', run, holds) =
            block_read tmp (λ b. p.out (p.bytes + b)) k (omega arith) (omega arith) in
          let out : Buffer = λ b. if ltb b p.bytes then p.out b else buf (b - p.bytes) in
          let ne : (k == start) ≡ false = ground arith in
          let nl : (k == last) ≡ false = ground arith in
          (
            record p { out = out; bytes = p.bytes + s.block_size },
            tmp',
            rw (ne, nl, run) refl,
            refl,
            extend (p.bytes + s.block_size) p.bytes s.block_size 0 k p.out out buf refl old
                (λ i h. ground arith) (λ b h. ground arith) (omega arith) (omega (arith, at)) holds,
          )

      -- The loop ends with the whole range read.
      abbrev Finished : (tmp : Buffer) (n k : ℕ) → Progress → Type 0
      Finished tmp n k p =
          (p' : Progress) × (tmp' : Buffer) × (read_parts inode offset size start last n k p
              (record s { tmp_buf = tmp })
            ≡ ok (true, p') (record s { tmp_buf = tmp' }))
          × (p'.bytes ≡ size)
          × Copied 0 size p'.out

      read_parts_go :
          (n k bytes : ℕ) (tmp : Buffer) (p : Progress) (went : Went tmp size k p bytes)
          → Finished went.1 n (k + 1) went.0
          → Finished tmp (suc n) k p
      unfolding read_parts
      read_parts_go n k bytes tmp p (p', tmp', run, e, copied) (p'', tmp'', rest, all, done) =
          (p'', tmp'', rw (read_parts, run) rest, all, done)

      finish :
          (bytes : ℕ) (tmp : Buffer) (p : Progress)
          → p.bytes ≡ bytes
          → bytes ≡ size
          → Copied 0 bytes p.out
          → (k : ℕ) → Finished tmp 0 k p
      unfolding read_parts
      finish bytes tmp p e e' copied k =
          (p, tmp, refl, e ∙ e', subst (λ n. Copied 0 n p.out) e' copied)

      rest_rounds :
          (n k : ℕ) (tmp : Buffer) (p : Progress)
          → start < k
          → k + n ≡ last
          → Copied 0 p.bytes p.out
          → offset + p.bytes ≡ s.block_size * k
          → add64 offset size % s.block_size < s.block_size
          → offset + size ≡ s.block_size * last + add64 offset size % s.block_size
          → Finished tmp (suc n) k p
      rest_rounds zero k tmp p gt e old at small whole =
          let e' : k ≡ last = omega arith in
          let at' : offset + p.bytes ≡ s.block_size * last = at ∙ ap (λ x. s.block_size * x) e' in
          let r = last_round tmp p (omega arith) old at' small in
          subst (λ x. Finished tmp 1 x p) (sym e')
            (read_parts_go 0 last (p.bytes + add64 offset size % s.block_size) tmp p r (
              finish (p.bytes + add64 offset size % s.block_size) r.1 r.0 r.3 (omega arith) r.4
                (last + 1)))
      rest_rounds (suc n) k tmp p gt e old at small whole =
          let r = middle_round tmp p k gt (omega arith) old at in
          read_parts_go (suc n) k (p.bytes + s.block_size) tmp p r (
            rest_rounds n (k + 1) r.1 r.0 (omega arith) (omega arith)
              (subst (λ m. Copied 0 m r.0.out) (sym r.3) r.4) (omega (arith, r.3)) small whole)

      -- What the first round reads: everything, or the rest of its block.
      first_count_lem :
          start ≤ last
          → offset + size < 2 ^ 32
          → offset % s.block_size < s.block_size
          → offset ≡ s.block_size * start + offset % s.block_size
          → add64 offset size % s.block_size < s.block_size
          → offset + size ≡ s.block_size * last + add64 offset size % s.block_size
          → (start ≡ last → first_count s.block_size offset size ≡ size)
            × (start < last
                → offset + first_count s.block_size offset size ≡ s.block_size * (start + 1))
            × (offset % s.block_size + first_count s.block_size offset size ≤ s.block_size)
      unfolding first_count
      first_count_lem le small lo at hi whole =
          elim (dec_le (size + offset % s.block_size) s.block_size) [
            | yes h ↦
                let e : leb (add64 size (offset % s.block_size)) s.block_size ≡ true =
                  ground arith in
                rw e (
                  λ same. refl,
                  λ lt.
                      let more : s.block_size * (start + 1) ≤ s.block_size * last =
                        mul-le-mul_left s.block_size (omega arith) in
                      omega (arith, at, whole, more),
                  omega arith,
                )
            | no h ↦
                let e : leb (add64 size (offset % s.block_size)) s.block_size ≡ false =
                  ground arith in
                rw e (
                  λ same.
                      let e' : s.block_size * start ≡ s.block_size * last =
                        ap (λ x. s.block_size * x) same in
                      absurd (omega (arith, e', at, whole, h)),
                  λ lt. omega (arith, at),
                  omega arith,
                )
          ]

      pub all_rounds :
          (tmp : Buffer) (p : Progress)
          → p.bytes ≡ 0
          → start ≤ last
          → offset + size < 2 ^ 32
          → offset % s.block_size < s.block_size
          → offset ≡ s.block_size * start + offset % s.block_size
          → add64 offset size % s.block_size < s.block_size
          → offset + size ≡ s.block_size * last + add64 offset size % s.block_size
          → Finished tmp (last + 1 - start) start p
      all_rounds tmp p none_read le small lo at hi whole =
          let (one, many, fits) = first_count_lem le small lo at hi whole in
          let r = first_round tmp p le none_read at fits in
          let n = last - start in
          let e : last + 1 - start ≡ suc n = omega arith in
          subst (λ m. Finished tmp m start p) (sym e)
            (read_parts_go n start (first_count s.block_size offset size) tmp p r
              (elim (dec_lt start last) [
                | yes h ↦
                    subst (λ m. Finished r.1 m (start + 1) r.0) (omega arith)
                      (rest_rounds (n - 1) (start + 1) r.1 r.0 (omega arith) (omega arith)
                        (subst (λ m. Copied 0 m r.0.out) (sym r.3) r.4)
                        (ap (λ m. offset + m) r.3 ∙ many h) hi whole)
                | no h ↦
                    subst (λ m. Finished r.1 m (start + 1) r.0) (omega arith)
                      (finish (first_count s.block_size offset size) r.1 r.0 r.3 (one (omega arith))
                        r.4 (start + 1))
              ]))

-- The byte at position `at` of a file, by the layout of its inode.
unfoldable pub file_byte : Ext2 → (inode : Buffer) (at : ℕ) → ℕ
file_byte s inode at = block_byte s (layout s inode (at / s.block_size)) (at % s.block_size)

-- The blocks of the range lie before the double indirect ones, and the disk can read them and,
-- where it is used, the single indirect block.
pub record InReach (s : Ext2) (inode : Buffer) (offset size : ℕ) : Type 0 where
  pub sized : IsSized s
  pub near : (offset + size) / s.block_size < 12 + ptrs_per_block s
  pub pointers : Readable s (i_block inode 12)
  pub readable : (k : ℕ) → k ≤ (offset + size) / s.block_size → Readable s (layout s inode k)

layout-tmp :
    (s : Ext2) (tmp inode : Buffer) (k : ℕ)
    → layout (record s { tmp_buf = tmp }) inode k ≡ layout s inode k
unfolding layout ptrs_per_block pointer block_byte sectors_per_block word_at
layout-tmp s tmp inode k = refl

InReach-IsMapped :
    (s : Ext2) (inode : Buffer) (offset size start : ℕ)
    → InReach s inode offset size
    → IsMapped s inode (layout s inode) offset start ((offset + size) / s.block_size)
unfolding ptrs_per_block sectors_per_block
InReach-IsMapped s inode offset size start r = record {
  resolves = λ tmp k lo hi.
      subst (Resolves (record s { tmp_buf = tmp }) inode k) (layout-tmp s tmp inode k) (
        get_real_block-layout (record s { tmp_buf = tmp }) inode k r.sized (omega (arith, r.near))
          (λ _. r.pointers));
  readable = λ k lo hi. r.readable k hi;
  sized = r.sized;
}

-- What a read that succeeds leaves: the count, the new offset of the node, and the bytes.
abbrev pub ReadResult :
    (s : Ext2) (inode : Buffer) (node : Node) (offset size : ℕ)
    → Run Ext2 (ℕ × Node × Buffer)
    → Type 0
ReadResult s inode node offset size r =
    (out : Buffer) × (tmp' : Buffer) × (r
      ≡ ok (size, record node { offset = offset + size }, out) (record s { tmp_buf = tmp' }))
    × ((i : ℕ) → i < size → out i ≡ file_byte s inode (offset + i))

read_file-ReadResult :
    (s : Ext2) (inode : Buffer) (node : Node) (offset size : ℕ) (t tmp buffer : Buffer)
    → InReach s inode offset size
    → offset + size < 2 ^ 32
    → ReadResult s inode node offset size
        (read_file inode node offset size tmp buffer (record s { tmp_buf = t }))
unfolding read_file file_byte
read_file-ReadResult s inode node offset size t tmp buffer r small =
    let start = offset / s.block_size in
    let last = (offset + size) / s.block_size in
    let pos : 0 < s.block_size = omega (arith, r.sized.1) in
    let total : add64 offset size ≡ offset + size = omega arith in
    let le : start ≤ last =
      (le-div_iff_mul-le pos).1 (omega (arith, div-mul-le_self offset s.block_size)) in
    let quot : add64 offset size / s.block_size % 2 ^ 32 ≡ last =
      rw total (omega (arith, div-le_self (offset + size) s.block_size)) in
    let mapped = InReach-IsMapped s inode offset size start r in
    let (p, tmp', run, all, copied) =
      all_rounds s inode (layout s inode) offset start last mapped size t
        (record { tmp = tmp; out = buffer; bytes = 0 }) refl le small (mod-lt offset pos)
        (sym (div-add-mod offset s.block_size)) (rw total (mod-lt (offset + size) pos))
        (rw total (sym (div-add-mod (offset + size) s.block_size))) in
    (
      p.out,
      tmp',
      rw (quot, run)
          (ap
              (λ n.
                ok (n, record node { offset = add64 offset n }, p.out)
                  (record s { tmp_buf = tmp' }))
              all
            ∙ ap (λ n. ok (size, record node { offset = n }, p.out) (record s { tmp_buf = tmp' }))
                total),
      λ i h.
          copied i ((offset + i) / s.block_size) ((offset + i) % s.block_size) (omega arith) h
            (mod-lt (offset + i) pos) (div-add-mod (offset + i) s.block_size),
    )

-- `ext2_read` of a range inside a file, when its inode can be read, its blocks lie before the double
-- indirect ones, the disk reads them and memory is granted: it returns the size, moves the offset of
-- the node behind the range, fills the caller's buffer with the bytes that the file has there by the
-- layout of its inode, and changes nothing of the file system but `g_tmpBuf`.
pub ext2_read-ReadResult :
    (s : Ext2) (inode : Buffer) (granted : Bool) (node : Node) (offset size : ℕ)
    (t tmp buffer : Buffer)
    → read_inode granted node.inode s ≡ ok (some inode) (record s { tmp_buf = t })
    → inode_file inode ≡ true
    → offset + size ≤ i_size inode
    → InReach s inode offset size
    → offset + size < 2 ^ 32
    → ReadResult s inode node offset size (ext2_read granted true node offset size tmp buffer s)
unfolding ext2_read
ext2_read-ReadResult s inode granted node offset size t tmp buffer found file inside r small =
    let fits : ltb (i_size inode) (add64 size offset) ≡ false = ground arith in
    let (out, tmp', run, bytes) : ReadResult s inode node offset size
        (read_file inode node offset size tmp buffer (record s { tmp_buf = t })) =
      read_file-ReadResult s inode node offset size t tmp buffer r small in
    (out, tmp', rw (found, file, fits, run) refl, bytes)
