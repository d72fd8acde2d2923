-- ===== src/Commands/Sectors.antt =====
-- The commands on sectors of the drive (src/commands.rs: `read`, `write`, `read_as_string`).
use sil_os.Prelude.{
  ℕ, ◌%◌, ◌^◌, not, Option, none, some, List, [], ◌∷◌, ◌++◌, ◌==◌, ltb, if◌then◌else◌, length,
  get_elem?, codes, join_by, drop, utf8, from_utf8, overwrite, replicate, show_nat,
}
use sil_os.Risp.{Token}
use sil_os.Risp.System.{CmdResult, process_error, cmd_panics}
use sil_os.Fat16.{read_block, write_block}
use sil_os.Commands.{Kernel}
use sil_os.Commands.Names.{parse_u32, trim_nul}
use sil_os.Commands.Output.{print, printed, say, worked}

-- The second argument as a number, where there are two.
abbrev pub second_u32 : List Token → Option ℕ
second_u32 args = elim (get_elem? args 1) [ none ↦ none | some s ↦ parse_u32 s ]

-- `print!("{} ", res[i])` for each byte.
abbrev pub numbers_text : List ℕ → List ℕ
numbers_text [] = []
numbers_text (b ∷ bytes) = show_nat b ++ (codes " " ++ numbers_text bytes)

-- The sector that `AtaDrive` addresses for an LBA of 32 bits, of which it sends 28.
abbrev pub low_28_bits : ℕ → ℕ
low_28_bits lba = lba % 2 ^ 28

module _ {E : Type 0} where
  unfoldable pub read : List Token → Kernel E → CmdResult (Kernel E)
  unfolding parse_u32 print
  read args k =
      if not (length args == 2)
      then process_error (codes "Needs 2 parameters") k
      else elim (second_u32 args) [
        | none ↦ process_error (codes "needs a number") k
        | some loc ↦
            printed (print (numbers_text (read_block (low_28_bits loc) k.disk)) k)
              (worked (codes "worked"))
      ]

  -- `unwrap` panics on a sector that is no UTF-8.
  unfoldable pub read_as_string : List Token → Kernel E → CmdResult (Kernel E)
  unfolding parse_u32 print from_utf8
  read_as_string args k =
      if not (length args == 2)
      then process_error (codes "Needs 2 parameters") k
      else elim (second_u32 args) [
        | none ↦ process_error (codes "needs a number") k
        | some loc ↦ elim (from_utf8 (read_block (low_28_bits loc) k.disk)) [
          | none ↦ cmd_panics
          | some s ↦ say (trim_nul s) k (worked (codes "Worked"))
        ]
      ]

  unfoldable pub write : List Token → Kernel E → CmdResult (Kernel E)
  unfolding parse_u32 write_block utf8
  write args k =
      if ltb (length args) 3
      then process_error (codes "Usage: write <sector_index> <string_data>") k
      else elim (second_u32 args) [
        | none ↦ process_error (codes "Sector index must be a valid u32 number") k
        | some loc ↦
            let data_bytes = utf8 (join_by (codes " ") (drop 2 args)) in
            if ltb 512 (length data_bytes)
            then process_error
                (codes "Data too large: "
                  ++ (show_nat (length data_bytes) ++ codes " bytes (max 512)"))
                k
            else (let buffer = overwrite 0 data_bytes (replicate 512 0) in
                worked (codes "Sector written successfully")
                  (record k { disk = write_block (low_28_bits loc) buffer k.disk }))
      ]
