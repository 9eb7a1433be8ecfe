-- ===== src/Ide/Sectors.antt =====
-- The loops of kernel/src/dev/storage/ide.c over the sectors.
use omega_os.Base.{
  ℕ, zero, suc, ◌+◌, ◌-◌, ◌*◌, ◌/◌, ◌%◌, ◌^◌, ◌≤◌, ◌<◌, ◌≡◌, ◌≢◌, refl, ◌∙◌, Bool, true, false, put,
  put_at, put_other, ap, arith, dec_lt, ap₂, inl, inr, Bool-cases,
}
use omega_os.Ide.{Buffer, Disk, lba, fill, read_sectors, write_sector, write_sectors, sector_size}

-- What the sectors from `sector` on hold, one behind the other.
abbrev pub sector_byte : Disk → (sector b : ℕ) → ℕ
sector_byte d sector b = d.sectors (lba (sector + b / sector_size)) (b % sector_size)

read_sectors_go :
    (sector n i : ℕ) (d : Disk) (buf : Buffer)
    → d.readable (lba sector) ≡ true
    → read_sectors sector (suc n) i d buf
      ≡ read_sectors (sector + 1) n (i + 1) d (fill i (d.sectors (lba sector)) buf)
unfolding read_sectors
read_sectors_go sector n i d buf e = rw e refl

abbrev pub AllRead : (sector n i : ℕ) → Disk → Buffer → Bool × Buffer → Type 0
AllRead sector n i d buf r =
    (r.0 ≡ true)
    × ((b : ℕ)
        → i * sector_size ≤ b
        → b < (i + n) * sector_size
        → r.1 b ≡ sector_byte d sector (b - i * sector_size))
    × ((b : ℕ) → b < i * sector_size → r.1 b ≡ buf b)

fill_inside :
    (i b : ℕ) (from buf : Buffer)
    → i * sector_size ≤ b
    → b < i * sector_size + sector_size
    → fill i from buf b ≡ from (b - i * sector_size)
fill_inside i b from buf lo hi = ground arith

fill_below : (i b : ℕ) (from buf : Buffer) → b < i * sector_size → fill i from buf b ≡ buf b
fill_below i b from buf lo = ground arith

pub read_sectors-AllRead :
    (sector n i : ℕ) (d : Disk) (buf : Buffer)
    → ((k : ℕ) → k < n → d.readable (lba (sector + k)) ≡ true)
    → AllRead sector n i d buf (read_sectors sector n i d buf)
unfolding read_sectors
read_sectors-AllRead sector zero i d buf good =
    (refl, λ b lo hi. absurd (omega arith), λ b lo. refl)
read_sectors-AllRead sector (suc n) i d buf good =
    let first : d.readable (lba sector) ≡ true =
      ap (λ k. d.readable (lba k)) (omega arith) ∙ good 0 (omega arith) in
    let (fine, later, before) =
      read_sectors-AllRead (sector + 1) n (i + 1) d (fill i (d.sectors (lba sector)) buf)
        (λ k h. ap (λ j. d.readable (lba j)) (omega arith) ∙ good (k + 1) (omega arith)) in
    rw first (
      fine,
      λ b lo hi. elim (dec_lt b (i * sector_size + sector_size)) [
        | yes p ↦
            before b (omega arith)
            ∙ fill_inside i b (d.sectors (lba sector)) buf lo p
            ∙ ap₂ (λ k j. d.sectors (lba k) j) (omega arith) (omega arith)
        | no p ↦
            later b (omega arith) (omega arith)
            ∙ ap₂ (λ k j. d.sectors (lba k) j) (omega arith) (omega arith)
      ],
      λ b lo. before b (omega arith) ∙ fill_below i b (d.sectors (lba sector)) buf lo,
    )

-- A failed read leaves the device alone and says so.
pub read_sectors-fails :
    (sector n i k : ℕ) (d : Disk) (buf : Buffer)
    → k < n
    → d.readable (lba (sector + k)) ≡ false
    → (read_sectors sector n i d buf).0 ≡ false
unfolding read_sectors
read_sectors-fails sector zero i k d buf h bad = absurd (omega arith)
read_sectors-fails sector (suc n) i zero d buf h bad =
    let now : d.readable (lba sector) ≡ false = ap (λ j. d.readable (lba j)) (omega arith) ∙ bad in
    rw now refl
read_sectors-fails sector (suc n) i (suc k) d buf h bad =
    elim (Bool-cases (d.readable (lba sector))) [
      | inl e ↦ rw e (
          read_sectors-fails (sector + 1) n (i + 1) k d (fill i (d.sectors (lba sector)) buf)
            (omega arith) (ap (λ j. d.readable (lba j)) (omega arith) ∙ bad))
      | inr e ↦ rw e refl
    ]

-- After a write: the sectors of the run hold the buffer, the others what they held.
abbrev pub AllWritten : (sector n i : ℕ) → Buffer → (d d' : Disk) → Type 0
AllWritten sector n i buf d d' =
    (d'.readable ≡ d.readable)
    × (d'.writable ≡ d.writable)
    × ((k b : ℕ) → k < n → d'.sectors (lba (sector + k)) b ≡ buf ((i + k) * sector_size + b))
    × ((l : ℕ) → ((k : ℕ) → k < n → l ≢ lba (sector + k)) → d'.sectors l ≡ d.sectors l)

pub write_sectors-AllWritten :
    (sector n i : ℕ) (buf : Buffer) (d : Disk)
    → sector + n ≤ 2 ^ 28
    → ((k : ℕ) → k < n → d.writable (lba (sector + k)) ≡ true)
    → AllWritten sector n i buf d (write_sectors sector n i buf d)
unfolding write_sectors lba
write_sectors-AllWritten sector zero i buf d fits good =
    (refl, refl, λ k b h. absurd (omega arith), λ l out. refl)
write_sectors-AllWritten sector (suc n) i buf d fits good =
    let e : write_sector sector i buf d
        ≡ record d { sectors = put d.sectors (lba sector) (λ b. buf (i * sector_size + b)) } =
      (let now : d.writable (lba sector) ≡ true =
          ap (λ k. d.writable (lba k)) (omega arith) ∙ good 0 (omega arith) in
        rw now refl) in
    let d1 : Disk = record d {
      sectors = put d.sectors (lba sector) (λ b. buf (i * sector_size + b));
    } in
    let (r, w, later, others) =
      write_sectors-AllWritten (sector + 1) n (i + 1) buf d1 (omega arith)
        (λ k h. ap (λ j. d.writable (lba j)) (omega arith) ∙ good (k + 1) (omega arith)) in
    rw (write_sectors, e)
      (
        r,
        w,
        λ k b h. elim (dec_lt 0 k) [
          | yes p ↦
              ap (λ j. (write_sectors (sector + 1) n (i + 1) buf d1).sectors (lba j) b)
                (omega arith)
              ∙ later (k - 1) b (omega arith)
              ∙ ap buf (omega arith)
          | no p ↦
              ap (λ f. f b) (others (lba (sector + k)) (λ j hj x. ground arith))
              ∙ ap (λ j. d1.sectors (lba j) b) (omega arith)
              ∙ ap (λ f. f b) (put_at d.sectors (lba sector) (λ c. buf (i * sector_size + c)))
              ∙ ap buf (omega arith)
        ],
        λ l out.
            others l (λ k h x. out (k + 1) (omega arith) (x ∙ ap lba (omega arith)))
            ∙ put_other d.sectors (lba sector) (λ b. buf (i * sector_size + b)) l
                (λ x. out 0 (omega arith) (x ∙ ap lba (omega arith))),
      )
