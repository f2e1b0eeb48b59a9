-- ===== src/Pagemap/Examples.antt =====
-- Entries of a page map, and the theorems there.
use mytests.Base.{
  ℕ, ◌+◌, ◌*◌, ◌%◌, ◌^◌, ◌≡◌, refl, arith, some, List, [], ◌∷◌, ◌++◌, drop, replicate, take,
}
use mytests.Base.{if◌then◌else◌, ◌==◌}
use mytests.Base.Word.{u64}
use mytests.Pagemap.Defs.{
  bytes, Pager, filled, number, read_data, virt_to_phys_user, page_of, entry_of,
}
use mytests.Pagemap.Reading.{virt_to_phys_user_lem, read_data-short}
use mytests.Pagemap.Fields.{entry_of-page_of}

-- The entry of the page 3, present, in the frame 0x1234.
abbrev entry : List ℕ
entry = 0x34 ∷ 0x12 ∷ 0 ∷ 0 ∷ 0 ∷ 0 ∷ 0 ∷ 0x80 ∷ []

-- The map file in full, and at most five bytes at a time.
abbrev whole : Pager
whole count offset = bytes entry

abbrev halting : Pager
halting count offset = bytes (if offset == 24 then take 5 entry else drop 5 entry)

abbrev junk : List ℕ
junk = replicate 8 0xff

virt_to_phys_user_lem_example :
    virt_to_phys_user (some whole) 4096 0x3010 junk
    ≡ some (u64 (number entry % 2 ^ 54 * 4096 + 0x3010 % 4096))
virt_to_phys_user_lem_example = virt_to_phys_user_lem whole 4096 0x3010 junk entry refl refl refl

frame_0x1234 : u64 (number entry % 2 ^ 54 * 4096 + 0x3010 % 4096) ≡ 0x1234010
unfolding number
frame_0x1234 = refl

read_data-short_example :
    read_data halting 4096 0x3010 junk
    ≡ filled (drop 5 entry ++ drop 3 (take 5 entry ++ drop 5 junk))
read_data-short_example =
    read_data-short halting 4096 0x3010 junk (take 5 entry) (drop 5 entry) (omega arith)
      (omega arith) refl refl refl

entry_of-page_of_example :
    ((page_of 0x40000000000001).pfn
      ≡ (entry_of 0x40000000000001).pfn + 2 ^ 54 * (entry_of 0x40000000000001).soft_dirty)
    × ((page_of 0x40000000000001).file_page ≡ (entry_of 0x40000000000001).file_page)
    × ((page_of 0x40000000000001).swapped ≡ (entry_of 0x40000000000001).swapped)
    × ((page_of 0x40000000000001).present ≡ (entry_of 0x40000000000001).present)
entry_of-page_of_example = entry_of-page_of 0x40000000000001
