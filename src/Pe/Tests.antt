-- ===== src/Pe/Tests.antt =====
-- A small file, and the theorems on the loader at it.
use crab_efi.Prelude.{ℕ, List, [], ◌∷◌, ◌++◌, ◌≡◌, refl, replicate, arith}
use crab_efi.Status.{ok}
use crab_efi.Allocator.Types.{conventional_memory, new_descriptor}
use crab_efi.Allocator.Carving.{Valid}
use crab_efi.Pe.{parse_headers, parse_dos, parse_coff, parse_optional, false}
use crab_efi.Pe.Load.{Firmware, load_image}
use crab_efi.Pe.Loading.{Loads, load_image-Loads}

abbrev zeros : ℕ → List ℕ
zeros n = replicate n 0

-- A DOS header, the signature, a COFF header for one section, an optional header for an image of 0x2000
-- bytes at 0x400000 with its entry at 0x1000, and the section: 4 bytes from 0x10 on, at 0x1000.
abbrev small_file : List ℕ
small_file =
    (0x4D ∷ 0x5A ∷ [])
    ++ (zeros 58
        ++ ((64 ∷ 0 ∷ 0 ∷ 0 ∷ [])
            ++ ((0x50 ∷ 0x45 ∷ 0 ∷ 0 ∷ [])
                ++ ((0x64 ∷ 0x86 ∷ 1 ∷ 0 ∷ [])
                    ++ (zeros 12
                        ++ ((112 ∷ 0 ∷ 0 ∷ 0 ∷ [])
                            ++ ((0x0B ∷ 0x02 ∷ [])
                                ++ (zeros 14
                                    ++ ((0 ∷ 0x10 ∷ 0 ∷ 0 ∷ [])
                                        ++ (zeros 4
                                            ++ ((0 ∷ 0 ∷ 0x40 ∷ 0 ∷ [])
                                                ++ (zeros 28
                                                    ++ ((0 ∷ 0x20 ∷ 0 ∷ 0 ∷ 0x40 ∷ 0 ∷ 0 ∷ 0 ∷ [])
                                                        ++ (zeros 48
                                                            ++ (zeros 8
                                                            ++ ((4 ∷ 0 ∷ 0 ∷ 0 ∷ 0 ∷ 0x10 ∷ 0 ∷ 0
                                                            ∷ [])
                                                            ++ ((4 ∷ 0 ∷ 0 ∷ 0 ∷ 0x10 ∷ 0 ∷ 0 ∷ 0
                                                            ∷ [])
                                                            ++ zeros 16)))))))))))))))))

small_file-parse_headers :
    parse_headers small_file
    ≡ ok (record {
      coff = record { num_sections = 1; opt_header_size = 112; opt_offset = 88 };
      optional = record {
        image_base = 0x400000;
        image_size = 0x2000;
        entry_point_rva = 0x1000;
        size_of_headers = 0x40;
        num_data_dirs = 0;
      };
      sections_offset = 200;
      sections_end = 240;
    })
unfolding parse_headers parse_dos parse_coff parse_optional
small_file-parse_headers = refl

abbrev demo : Firmware
demo = record {
  allocator = record {
    entries = new_descriptor conventional_memory 0x100000 256 8 ∷ [];
    map_key = 1;
    boot_services_exited = false;
  };
  memory = λ _. 7;
}

demo-Valid : Valid demo.allocator
demo-Valid = omega arith

load_image-Loads_example : Loads demo (load_image demo small_file)
load_image-Loads_example = load_image-Loads demo small_file demo-Valid (omega arith) refl
