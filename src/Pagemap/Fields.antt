-- ===== src/Pagemap/Fields.antt =====
-- The two decodings of an entry of the page map.
use mytests.Base.{ℕ, ◌+◌, ◌*◌, ◌/◌, ◌%◌, ◌^◌, ◌<◌, ◌≡◌, refl, arith}
use mytests.Base.Digits.{bit_and_low}
use mytests.Base.Word.{IsU64}
use mytests.Pagemap.Defs.{entry_of, page_of}

-- vmmalloc_fork.c reads the entry as the kernel documents it: the frame number in bits 0 to 54,
-- soft-dirty in bit 55, exclusive in bit 56, file page, swapped and present in bits 61 to 63; with the
-- four bits between, its fields are the whole entry.
pub page_of-fields :
    (dat : ℕ)
    → IsU64 dat
    → ((page_of dat).pfn < 2 ^ 55)
      × (dat
          ≡ (page_of dat).pfn
            + 2 ^ 55 * (page_of dat).soft_dirty
            + 2 ^ 56 * (page_of dat).exclusive
            + 2 ^ 57 * (dat / 2 ^ 57 % 16)
            + 2 ^ 61 * (page_of dat).file_page
            + 2 ^ 62 * (page_of dat).swapped
            + 2 ^ 63 * (page_of dat).present)
unfolding page_of
page_of-fields dat h = omega (
  arith,
  bit_and_low 55 dat,
  bit_and_low 1 (dat / 2 ^ 55),
  bit_and_low 1 (dat / 2 ^ 56),
  bit_and_low 1 (dat / 2 ^ 61),
  bit_and_low 1 (dat / 2 ^ 62),
  bit_and_low 1 (dat / 2 ^ 63),
)

-- va2pa.c agrees on the file page, swapped and present bits of every entry, but it takes the top bit
-- of the frame number for soft-dirty: the frame number of vmmalloc_fork.c is that of va2pa.c plus
-- 2 ^ 54 times the soft-dirty bit of va2pa.c.
pub entry_of-page_of :
    (dat : ℕ)
    → ((page_of dat).pfn ≡ (entry_of dat).pfn + 2 ^ 54 * (entry_of dat).soft_dirty)
      × ((page_of dat).file_page ≡ (entry_of dat).file_page)
      × ((page_of dat).swapped ≡ (entry_of dat).swapped)
      × ((page_of dat).present ≡ (entry_of dat).present)
unfolding page_of entry_of
entry_of-page_of dat = (
  omega (arith, bit_and_low 55 dat, bit_and_low 54 dat, bit_and_low 1 (dat / 2 ^ 54)),
  refl,
  refl,
  refl,
)
