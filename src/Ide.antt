-- ===== src/Ide.antt =====
-- The disk driver: `ide_read` and `ide_write` of kernel/src/dev/storage/ide.c. The device is a
-- parameter: what its sectors hold, and for which of them it reports an error.
pub mod Sectors
use omega_os.Base.{
  ℕ, zero, suc, ◌+◌, ◌-◌, ◌*◌, ◌%◌, ◌^◌, Bool, true, false, ◌&&◌, ltb, leb, ◌==◌, if◌then◌else◌,
  put,
}

-- The bytes of a block of memory, by their offset.
abbrev pub Buffer : Type 0
Buffer = ℕ → ℕ

-- The bytes of each sector. A sector that is not readable sets the error bit of the status after a
-- read command, one that is not writable keeps what it holds.
pub record Disk : Type 0 where
  pub sectors : ℕ → Buffer
  pub readable : ℕ → Bool
  pub writable : ℕ → Bool

abbrev pub sector_size : ℕ
sector_size = 512

-- The four bits of the drive register and the three address registers.
unfoldable pub lba : ℕ → ℕ
lba sector = sector % 2 ^ 28

-- `insm` into the buffer at sector `i` of it.
abbrev pub fill : (i : ℕ) (from : Buffer) → Buffer → Buffer
fill i from buf b =
    if leb (i * sector_size) b && ltb b (i * sector_size + sector_size)
    then from (b - i * sector_size)
    else buf b

-- The loop of `ide_read` with `n` sectors left: whether all could be read, and the buffer.
unfoldable pub read_sectors : (sector n i : ℕ) → Disk → Buffer → Bool × Buffer
read_sectors sector zero i d buf = (true, buf)
read_sectors sector (suc n) i d buf =
    let rest = read_sectors (sector + 1) n (i + 1) d (fill i (d.sectors (lba sector)) buf) in
    if d.readable (lba sector) then rest else (false, buf)

-- `at` is the address of the buffer.
unfoldable pub ide_read : (sector at count : ℕ) → Disk → Buffer → Bool × Buffer
ide_read sector at count d buf = if at == 0 then (false, buf) else read_sectors sector count 0 d buf

-- `outsm` of sector `i` of the buffer.
abbrev pub write_sector : (sector i : ℕ) → Buffer → Disk → Disk
write_sector sector i buf d =
    if d.writable (lba sector)
    then record d { sectors = put d.sectors (lba sector) (λ b. buf (i * sector_size + b)) }
    else d

-- The loop of `ide_write` with `n` sectors left. The driver does not look at the status.
unfoldable pub write_sectors : (sector n i : ℕ) → Buffer → Disk → Disk
write_sectors sector zero i buf d = d
write_sectors sector (suc n) i buf d =
    write_sectors (sector + 1) n (i + 1) buf (write_sector sector i buf d)

unfoldable pub ide_write : (sector at count : ℕ) → Buffer → Disk → Bool × Disk
ide_write sector at count buf d =
    if at == 0 then (false, d) else (true, write_sectors sector count 0 buf d)
