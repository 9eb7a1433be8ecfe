-- ===== src/Vmm/Entry.antt =====
-- `setEntry` of kernel/src/mem/vmm.c and the indices that an address has at the four levels.
use omega_os.Base.{ℕ, zero, suc, ◌+◌, ◌*◌, ◌/◌, ◌%◌, ◌^◌, ◌≤◌, ◌<◌, ◌≡◌, false, arith}
use omega_os.Vmm.{address, present, set_attributes, set_address, set_entry, index}

-- Whatever the entry held before, `setEntry` stores 40 bits of the frame number and the attributes
-- that lie outside them.
pub set_entry-lem :
    (raw addr attr : ℕ)
    → set_entry raw addr attr ≡ attr % 2 ^ 12 + addr % 2 ^ 40 * 2 ^ 12 + attr / 2 ^ 52 * 2 ^ 52
unfolding set_entry set_attributes set_address
set_entry-lem raw addr attr = omega arith

pub address-set_entry : (raw addr attr : ℕ) → address (set_entry raw addr attr) ≡ addr % 2 ^ 40
unfolding address
address-set_entry raw addr attr = omega (arith, set_entry-lem raw addr attr)

pub present-set_entry : (raw addr attr : ℕ) → present (set_entry raw addr attr) ≡ present attr
unfolding present
present-set_entry raw addr attr = ground (arith, set_entry-lem raw addr attr)

pub present-zero : present 0 ≡ false
unfolding present
present-zero = ground arith

pub index_bound : (n virt : ℕ) → index n virt < 512
unfolding index
index_bound n virt = omega arith

-- Two addresses with the same four indices are on the same page.
pub same_page :
    (v w : ℕ)
    → index 3 v ≡ index 3 w
    → index 2 v ≡ index 2 w
    → index 1 v ≡ index 1 w
    → index 0 v ≡ index 0 w
    → v / 2 ^ 12 % 2 ^ 36 ≡ w / 2 ^ 12 % 2 ^ 36
unfolding index
same_page v w = omega arith

-- The page number of an address, in the 48 bits that the four levels translate.
abbrev pub page : ℕ → ℕ
page virt = virt / 2 ^ 12 % 2 ^ 36

pub index_page : (v w k : ℕ) → page v ≡ page w → k ≤ 3 → index k v ≡ index k w
unfolding index
index_page v w zero e h = omega arith
index_page v w (suc zero) e h = omega arith
index_page v w (suc (suc zero)) e h = omega arith
index_page v w (suc (suc (suc zero))) e h = omega arith
index_page v w (suc (suc (suc (suc k)))) e h = absurd (omega (arith, h))
