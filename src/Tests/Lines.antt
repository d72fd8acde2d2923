-- ===== src/Tests/Lines.antt =====
-- Commands at concrete inputs (src/commands.rs).
use sil_os.Prelude.{
  ℕ, ◌≡◌, ◌≢◌, refl, arith, false, some, List, [], ◌∷◌, codes, utf8, encode_char, IsStr, str_nil,
  str_cons,
}
use sil_os.Risp.{Token}
use sil_os.Fat16.{read_block}
use sil_os.Fat16.Mount.{format_bpb}
use sil_os.Fat16.Mount.Formatted.{find_file-format_drive}
use sil_os.Pong.{other_key, down}
use sil_os.Vga.{Writer, initial_writer, blank}
use sil_os.Commands.{Kernel, Keyboard, unicode}
use sil_os.Commands.Names.{padded, resolve_name_ext, parse_u32}
use sil_os.Commands.Output.{say, worked}
use sil_os.Commands.Sectors.{write, read_as_string}
use sil_os.Commands.Files.{make_file}
use sil_os.Commands.Table.{table_get, bind}
use sil_os.Commands.Run.{run_interpret, run_cmd}
use sil_os.Commands.Session.{fat_name}
use sil_os.Commands.Stored.{Made, make_file-cat_file}
use sil_os.Commands.Shown.{NoNul, nul_nil, nul_cons, written, write-read_as_string}
use sil_os.Commands.Bound.{rebound, bind-run_cmd}
use sil_os.Commands.SameFile.{fat_name-resolved}
use sil_os.Tests.Files.{formatted, formatted-IsVolume}
use sil_os.Tests.Files as Files
use sil_os.Tests.Scripts.{nat_floats}

-- Keys that are the characters themselves.
abbrev plain_keys : Keyboard ℕ (Unit {0})
plain_keys = record {
  new = tt;
  process_keyevent = λ c s. (s, some (unicode c));
  code = λ c. other_key;
  state = λ c. down;
}

abbrev pub screen : Writer
screen = initial_writer (λ r k. blank 2)

abbrev pub kernel : Kernel ℕ
kernel = record {
  fs = some format_bpb;
  disk = formatted;
  writer = screen;
  cursor = [];
  shell = record { current_cmd = []; past_cmd = [] };
  commands = [];
  launch_pong = false;
  polls = [];
}

abbrev hi_there : List Token
hi_there = codes "hi" ∷ codes "there" ∷ []

hi_there-IsStr : IsStr (codes "hi there")
hi_there-IsStr =
    (str_cons refl (
      str_cons refl (
        str_cons refl
          (str_cons refl (str_cons refl (str_cons refl (str_cons refl (str_cons refl str_nil))))))))

hi_there-NoNul : NoNul (codes "hi there")
hi_there-NoNul =
    (nul_cons (omega arith) (
      nul_cons (omega arith) (
        nul_cons (omega arith) (
          nul_cons (omega arith) (
            nul_cons (omega arith) (
              nul_cons (omega arith) (nul_cons (omega arith) (nul_cons (omega arith) nul_nil))))))))

make_file-cat_file_example :
    Made
      (codes "mkdir" ∷ codes "notes.txt" ∷ hi_there)
      (codes "notes")
      (codes "hi there")
      kernel
      (make_file (codes "mkdir" ∷ codes "notes.txt" ∷ hi_there) kernel)
unfolding resolve_name_ext padded utf8 encode_char
make_file-cat_file_example =
    make_file-cat_file (codes "mkdir") (codes "notes.txt" ∷ hi_there) kernel (codes "notes")
      (codes "txt") 2 format_bpb refl (omega arith) refl formatted-IsVolume (omega arith)
      (find_file-format_drive Files.blank (padded 8 (codes "notes")) (padded 3 (codes "txt")))
      hi_there-IsStr (omega arith)

abbrev after_write : Kernel ℕ
after_write = written (codes "write") (codes "7") (codes "hi") (codes "there" ∷ []) 7 kernel

write-read_as_string_example :
    (write (codes "write" ∷ codes "7" ∷ hi_there) kernel
      ≡ worked (codes "Sector written successfully") after_write)
    × (read_as_string (codes "show" ∷ codes "7" ∷ []) after_write
        ≡ say (codes "hi there") after_write (worked (codes "Worked")))
    × (read_block 8 after_write.disk ≡ read_block 8 formatted)
unfolding parse_u32 utf8 encode_char
write-read_as_string_example =
    write-read_as_string (codes "write") (codes "7") (codes "hi") (codes "there" ∷ []) 7 kernel
      (codes "show") refl (omega arith) hi_there-IsStr hi_there-NoNul 8 (omega arith)

abbrev after_bind : Kernel ℕ
after_bind = rebound (codes "bind") (codes "greet") (codes "hi") (codes "there" ∷ []) kernel

echo-greet : codes "echo" ≢ codes "greet"
echo-greet e = cc

bind-run_cmd_example :
    (bind (codes "bind" ∷ codes "greet" ∷ hi_there) kernel
      ≡ worked (codes "Bound successfully") after_bind)
    × (run_cmd nat_floats plain_keys (λ c. false) 4 (codes "greet" ∷ codes "1" ∷ []) after_bind
        ≡ run_interpret nat_floats plain_keys
            (λ c. false)
            3
            (run_cmd nat_floats plain_keys (λ c. false) 3)
            (codes "exec" ∷ codes "hi there" ∷ codes "1" ∷ [])
            after_bind)
    × (table_get (codes "echo") after_bind.commands ≡ table_get (codes "echo") [])
bind-run_cmd_example =
    bind-run_cmd (codes "bind") (codes "greet") (codes "hi") (codes "there" ∷ []) kernel nat_floats
      plain_keys (λ c. false) 3 (codes "1" ∷ []) (codes "echo") echo-greet

fat_name-resolved_example :
    fat_name (codes "cat" ∷ codes "notes.txt" ∷ []) ≡ (codes "NOTES   ", codes "TXT")
unfolding resolve_name_ext padded utf8 encode_char
fat_name-resolved_example =
    fat_name-resolved (codes "cat" ∷ codes "notes.txt" ∷ []) (codes "notes") (codes "txt") 2 refl
