-- ===== src/Kernel/Bbx.antt =====
-- tools/mkbbx.c: the check of a program file's header.
pub mod Accepted
use bb6502_verilog.Common.{
  ℕ, ◌||◌, not, ◌==◌, ltb, if◌then◌else◌, Option, none, some, List, [], ◌∷◌, ◌++◌, length, get_or,
  flatten,
}
use bb6502_verilog.Common.Bits.{shl, bit_or}
use bb6502_verilog.Clib.Chars.{text}
use bb6502_verilog.Clib.Format.{hex2, hex4_upper}

-- What main returns, and the texts it has written to stdout and stderr.
pub record Exit : Type 0 where
  pub code : ℕ
  pub out : List ℕ
  pub err : List ℕ

abbrev failure : List ℕ → Exit
failure message = record { code = 1; out = []; err = message }

-- `hdr[i] | (hdr[i + 1] << 8)`
abbrev pub header_word : List ℕ → (lo hi : ℕ) → ℕ
header_word hdr lo hi = bit_or (get_or hdr lo 0) (shl (get_or hdr hi 0) 8)

-- The line for a valid header.
unfoldable pub report : (load entry : ℕ) → List ℕ
unfolding text
report load entry = flatten (
    text "BBX valid:  load=$"
    ∷ hex4_upper load
    ∷ text "  entry=$"
    ∷ hex4_upper entry
    ∷ text "\n"
    ∷ [])

-- The line for a wrong magic.
unfoldable pub wrong_magic : (first second : ℕ) → List ℕ
unfolding text
wrong_magic first second =
    flatten
      (text "bad magic: " ∷ hex2 first ∷ text " " ∷ hex2 second ∷ text " (expected 42 58)\n" ∷ [])

-- What follows the open of the file: the read of six bytes, and the test of the magic.
unfoldable pub check_header : List ℕ → Exit
check_header content =
    if ltb (length content) 6
    then failure (text "file too short\n")
    else if not (get_or content 0 0 == 0x42) || not (get_or content 1 0 == 0x58)
    then failure (wrong_magic (get_or content 0 0) (get_or content 1 0))
    else record {
      code = 0;
      out = report (header_word content 2 3) (header_word content 4 5);
      err = [];
    }

-- The texts for a wrong number of arguments.
unfoldable pub usage : (program : List ℕ) → List ℕ
unfolding text
usage program = flatten (
    text "Usage: "
    ∷ program
    ∷ text " <file.bbx>\n"
    ∷ text "Verifies BBX header on stdin/file.\n"
    ∷ [])

-- main of mkbbx.c; `open_file` gives what perror says when fopen fails, and the file otherwise.
unfoldable pub check_file :
    (open_file : List ℕ → List ℕ × Option (List ℕ)) → (argv : List (List ℕ)) → Exit
check_file open_file argv =
    let (error, file) = open_file (get_or argv 1 []) in
    if not (length argv == 2)
    then failure (usage (get_or argv 0 []))
    else (elim file [ none ↦ failure error | some content ↦ check_header content ])
