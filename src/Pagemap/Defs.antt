-- ===== src/Pagemap/Defs.antt =====
-- va2pa/va2pa.c, and the copy of its functions in va2pa/vmmalloc_fork.c. `pread` and `open` are the
-- operating system's, and parameters of the definitions that call them.
use mytests.Base.{ℕ, zero, suc, ◌+◌, ◌-◌, ◌*◌, ◌/◌, ◌%◌, ◌^◌, Option, none, some}
use mytests.Base.{List, [], ◌∷◌, ◌++◌, bit_and, ltb, if◌then◌else◌, drop, length}
use mytests.Base.Word.{u64, ◌>>>◌}

-- What `pread(fd, buf, count, offset)` does: bytes at the start of `buf`, of which 0 is the end of the
-- file, or -1.
pub data Pread : Type 0 where
  bytes : List ℕ → Pread
  error : Pread

-- A count and an offset.
abbrev pub Pager : Type 0
Pager = ℕ → ℕ → Pread

-- The variable `data` as its 8 bytes, after a read to its start.
unfoldable pub overwrite : List ℕ → List ℕ → List ℕ
overwrite old bs = bs ++ drop (length bs) old

-- `data` as a number; the machine is little-endian.
unfoldable pub number : List ℕ → ℕ
number [] = 0
number (b ∷ bs) = b + 256 * number bs

-- How the loop of pagemap_get_entry ends: with the 8 bytes, or with the return of 1. `stuck` is no
-- behaviour of the C code: the loop ran out of fuel.
pub data Filled : Type 0 where
  filled : List ℕ → Filled
  failed stuck : Filled

-- The loop, from `nread` on, with `pos` for `vpn * sizeof(data)`. A round that reads nothing ends it.
unfoldable pub read_loop : ℕ → Pager → ℕ → ℕ → List ℕ → Filled
read_loop zero pread pos nread dat = if ltb nread 8 then stuck else filled dat
read_loop (suc fuel) pread pos nread dat =
    if ltb nread 8
    then elim (pread (8 - nread) (pos + nread)) [
      | error ↦ failed
      | bytes bs ↦ elim (length bs) [
        | zero ↦ failed
        | suc ret ↦ read_loop fuel pread pos (nread + suc ret) (overwrite dat bs)
      ]
    ]
    else filled dat

-- Eight rounds are enough, as each of them that goes on reads a byte.
unfoldable pub read_data : Pager → ℕ → ℕ → List ℕ → Filled
read_data pread page_size vaddr dat = read_loop 8 pread (vaddr / page_size * 8) 0 dat

-- PagemapEntry of va2pa.c.
pub record PagemapEntry : Type 0 where
  pub pfn : ℕ
  pub soft_dirty : ℕ
  pub file_page : ℕ
  pub swapped : ℕ
  pub present : ℕ

unfoldable pub entry_of : ℕ → PagemapEntry
entry_of dat = record {
  pfn = bit_and dat (2 ^ 54 - 1);
  soft_dirty = bit_and (dat >>> 54) 1;
  file_page = bit_and (dat >>> 61) 1;
  swapped = bit_and (dat >>> 62) 1;
  present = bit_and (dat >>> 63) 1;
}

-- `none` is the return of 1.
unfoldable pub filled_entry : Filled → Option PagemapEntry
filled_entry (filled dat) = some (entry_of (number dat))
filled_entry failed = none
filled_entry stuck = none

unfoldable pub pagemap_get_entry : Pager → ℕ → ℕ → List ℕ → Option PagemapEntry
pagemap_get_entry pread page_size vaddr dat = filled_entry (read_data pread page_size vaddr dat)

-- The physical address, or `none` for the return of 1; `opened` is what `open` gives, or `none`.
unfoldable pub virt_to_phys_user : Option Pager → ℕ → ℕ → List ℕ → Option ℕ
virt_to_phys_user none page_size vaddr dat = none
virt_to_phys_user (some pread) page_size vaddr dat =
    elim (pagemap_get_entry pread page_size vaddr dat) [
      | none ↦ none
      | some e ↦ some (u64 (u64 (e.pfn * page_size) + vaddr % page_size))
    ]

-- struct pagemap of vmmalloc_fork.c.
pub record Pagemap : Type 0 where
  pub pfn : ℕ
  pub soft_dirty : ℕ
  pub exclusive : ℕ
  pub file_page : ℕ
  pub swapped : ℕ
  pub present : ℕ

unfoldable pub page_of : ℕ → Pagemap
page_of dat = record {
  pfn = bit_and dat (2 ^ 55 - 1);
  soft_dirty = bit_and (dat >>> 55) 1;
  exclusive = bit_and (dat >>> 56) 1;
  file_page = bit_and (dat >>> 61) 1;
  swapped = bit_and (dat >>> 62) 1;
  present = bit_and (dat >>> 63) 1;
}

-- virt_to_phys of vmmalloc_fork.c; `none` is the return of -1.
unfoldable pub virt_to_phys : Option Pager → ℕ → ℕ → List ℕ → Option Pagemap
virt_to_phys none page_size vaddr dat = none
virt_to_phys (some pread) page_size vaddr dat = elim (read_data pread page_size vaddr dat) [
  | filled dat' ↦ some (page_of (number dat'))
  | failed ↦ none
  | stuck ↦ none
]
