-- ===== src/Examples/Helping.antt =====
-- The helpers of q3asm/cmdlib.c.
use q3vm.Base.{◌≡◌, refl, some, arith, true, if◌then◌else◌, [], ◌∷◌, ◌++◌, ◌↔◌}
use q3vm.Assembler.Run.{ok, exited}
use q3vm.Assembler.Text.{codes}
use q3vm.CmdLib.Compare.{q_stricmp_iff, strupr, q_stricmp}
use q3vm.CmdLib.Crc.{crc_init_value, crc_of}
use q3vm.CmdLib.Crc.Bitwise.{crc_of-crc_bytes}
use q3vm.CmdLib.Crc.Division.{crc_bytes}
use q3vm.CmdLib.Numbers.{parse_hex-agrees, all_digits, parse_hex}
use q3vm.CmdLib.Parts.{extract_file_extension, extract_file_base, extract_file_path}
use q3vm.CmdLib.Parts.Split.{full_path-parts, full_path}
use q3vm.Symbols

crc_of-crc_bytes_example :
    crc_of (codes "123456789") ≡ some (crc_bytes crc_init_value (codes "123456789"))
crc_of-crc_bytes_example = crc_of-crc_bytes (codes "123456789") (ground arith)

-- The published check value of this checksum.
check_value : crc_of (codes "123456789") ≡ some 0x29b1
unfolding crc_of
check_value = refl

q_stricmp_iff_example :
    (q_stricmp (codes "-Help") (codes "-hELP") ≡ true)
    ↔ (strupr (codes "-Help") ≡ strupr (codes "-hELP"))
q_stricmp_iff_example = q_stricmp_iff (codes "-Help") (codes "-hELP") (omega arith)

parse_hex-agrees_example :
    parse_hex (codes "1fG")
    ≡ (if all_digits (codes "1fG") then ok (Symbols.parse_hex (codes "1fG")) else exited)
parse_hex-agrees_example = parse_hex-agrees (codes "1fG")

full_path-parts_example :
    (extract_file_path (full_path (codes "game/src") (codes "cg") (codes "as") 109)
      ≡ some (codes "game/src" ++ 47 ∷ []))
    × (extract_file_base (full_path (codes "game/src") (codes "cg") (codes "as") 109)
        ≡ some (codes "cg"))
    × (extract_file_extension (full_path (codes "game/src") (codes "cg") (codes "as") 109)
        ≡ some (codes "as" ++ 109 ∷ []))
full_path-parts_example = full_path-parts (codes "game/src") (codes "cg") (codes "as") 109 refl refl
