-- ===== src/Kernel/Paging/Tests.antt =====
-- kernel/paging.c with its arrays at concrete addresses.
use black_hole_os.Prelude.{
  ◌/◌, ◌^◌, ◌==◌, ◌≡◌, inl, refl, arith, if◌then◌else◌, true, false, some, none,
}
use black_hole_os.Kernel.Memory.{Ptr}
use black_hole_os.Kernel.Paging.{Paging, paging_init, align_page}
use black_hole_os.Kernel.Paging.Translation.{
  translate, Placed, paging_init-identity, paging_init-user, paging_init-other,
}

abbrev before : Paging
before = record { memory = λ q. 0; page_directory = 0; first_page_table = 0; cr0 = 0x11; cr3 = 0 }

abbrev directory_raw : Ptr
directory_raw = 0x9010

abbrev table_raw : Ptr
table_raw = 0xb010

placed : Placed directory_raw table_raw
placed = (omega arith, omega arith, inl (omega arith))

aligned : align_page directory_raw ≡ 0xa000
unfolding align_page
aligned = refl

paging_init-identity_example :
    translate (paging_init directory_raw table_raw before) false 0xB8000
    ≡ (if 0xB8000 / 2 ^ 22 == 0 then some 0xB8000 else none)
paging_init-identity_example =
    paging_init-identity directory_raw table_raw before placed (omega arith) 0xB8000 (omega arith)

paging_init-user_example : translate (paging_init directory_raw table_raw before) true 0x1000 ≡ none
paging_init-user_example =
    paging_init-user directory_raw table_raw before placed (omega arith) 0x1000 (omega arith)

paging_init-other_example : (paging_init directory_raw table_raw before).memory 0x1000 ≡ 0
paging_init-other_example =
    paging_init-other directory_raw table_raw before placed (omega arith) 0x1000 (inl (omega arith))
      (inl (omega arith))
