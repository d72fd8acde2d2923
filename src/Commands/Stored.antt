-- ===== src/Commands/Stored.antt =====
-- `mkdir`, and then `cat` (src/commands.rs).
use sil_os.Prelude.{
  ℕ, ◌<◌, ◌^◌, ◌≡◌, refl, ◌∙◌, arith, true, false, none, some, List, ◌∷◌, ◌++◌, leb, length, get_or,
  drop, codes, join_by, utf8, from_utf8, IsStr, show_nat, from_utf8-utf8, length-overwrite,
  length-replicate, replicate,
}
use sil_os.Risp.{Token}
use sil_os.Risp.System.{CmdResult, success, process_error}
use sil_os.Fat16.{Bpb, Disk, Run, ok, err, out_of_fuel, FsError}
use sil_os.Fat16.Root.{find_file}
use sil_os.Fat16.Root.Sectors.{IsLive}
use sil_os.Fat16.File.{write_new_file}
use sil_os.Fat16.File.Chunks.{IsVolume}
use sil_os.Fat16.File.Loop.{Ends}
use sil_os.Fat16.File.RoundTrip.{IsFile, Refused}
use sil_os.Fat16.File.NewFile.{write_new_file-IsFile}
use sil_os.Commands.{Kernel}
use sil_os.Commands.Names.{resolve_name_ext, padded}
use sil_os.Commands.Files.{
  bytes, lookup_file, cat_found, cat_file, show_file, made, make_file, fs_error, dotted,
}

length-padded : (n : ℕ) (s : List ℕ) → length (padded n s) ≡ n
unfolding padded
length-padded n s = length-overwrite 0 _ (replicate n 0x20) ∙ length-replicate n 0x20

lt→leb : (a b : ℕ) → a < b → leb b a ≡ false
lt→leb a b h = ground arith

-- What `mkdir` comes to, of which the disk alone is changed: an error of the file system, or success,
-- after which `cat` with the same words prints the text.
pub data Made {E : Type 0} (args : List Token) (name_str text : List ℕ) (k : Kernel E)
    : CmdResult (Kernel E) → Type 0 where
  refused :
      (e : FsError) (d : Disk)
      → Made args name_str text k
          (process_error (codes "FS Error: " ++ fs_error e) (record k { disk = d }))
  stored :
      (message : List ℕ) (d : Disk)
      → cat_file args (record k { disk = d }) ≡ show_file name_str text (record k { disk = d })
      → Made args name_str text k (success message true (record k { disk = d }))

module _ {E : Type 0} (args : List Token) (k : Kernel E) (name_str ext_str : List ℕ) (next : ℕ)
    (r : resolve_name_ext args 1 ≡ some (name_str, ext_str, next)) (b : Bpb)
    (mounted : k.fs ≡ some b) where
  cat_resolved :
      (file_data text : List ℕ)
      → lookup_file name_str ext_str k ≡ bytes file_data
      → from_utf8 file_data ≡ some text
      → cat_file args k ≡ show_file name_str text k
  unfolding cat_file
  cat_resolved file_data text l u = rw (r, l, cat_file) (rw (u, cat_found) refl)

  lookup_file-IsFile :
      (file_data : List ℕ)
      → IsFile b (padded 8 name_str) (padded 3 ext_str) file_data k.disk
      → lookup_file name_str ext_str k ≡ bytes file_data
  unfolding lookup_file
  lookup_file-IsFile file_data f = rw (mounted, f.found, f.reads, lookup_file) refl

module _ {E : Type 0} (arg0 : Token) (rest : List Token) (k : Kernel E) (name_str ext_str : List ℕ)
    (next : ℕ) (b : Bpb) where
  abbrev pub given : List Token
  given = arg0 ∷ rest

  -- The text behind the name.
  abbrev pub text_of : List ℕ
  text_of = join_by (codes " ") (drop next given)

  made-Ends :
      resolve_name_ext given 1 ≡ some (name_str, ext_str, next)
      → k.fs ≡ some b
      → IsStr text_of
      → (message : List ℕ) (res : Run (Unit {0}))
      → Ends
          (λ _ d'. IsFile b (padded 8 name_str) (padded 3 ext_str) (utf8 text_of) d')
          (Refused b k.disk)
          res
      → Made given name_str text_of k (made message (codes "FS Error: ") k res)
  made-Ends r mounted s message (ok u d) h =
      let k' : Kernel E = record k { disk = d } in
      stored message d (
        cat_resolved given k' name_str ext_str next r b mounted (utf8 text_of) text_of
          (lookup_file-IsFile given k' name_str ext_str next r b mounted (utf8 text_of) h)
          (from_utf8-utf8 text_of s))
  made-Ends r mounted s message (err e d) h = refused e d
  made-Ends r mounted s message out_of_fuel h = elim h [ ]

  created : List ℕ
  created =
      codes "Created "
      ++ (dotted name_str ext_str
          ++ (codes " (" ++ (show_nat (length (utf8 text_of)) ++ codes " bytes)")))

  make_file-resolved :
      resolve_name_ext given 1 ≡ some (name_str, ext_str, next)
      → next < length given
      → k.fs ≡ some b
      → make_file given k
        ≡ made created
            (codes "FS Error: ")
            k
            (write_new_file b (padded 8 name_str) (padded 3 ext_str) (utf8 text_of) k.disk)
  unfolding make_file created
  make_file-resolved r n mounted =
      rw (r, make_file) (rw (lt→leb next (length given) n) (simp mounted))

  -- On a mounted volume, with a name that the words resolve to, that begins with neither a NUL
  -- nor the byte 0xE5 and that is not on it, some words behind the name and fewer than 2 ^ 32
  -- bytes of Unicode text in them, `mkdir` changes the disk alone. It either reports an error of
  -- the file system, or it succeeds, and then `cat` with the same words prints the words that
  -- `mkdir` was given, between its two rules.
  pub make_file-cat_file :
      resolve_name_ext given 1 ≡ some (name_str, ext_str, next)
      → next < length given
      → k.fs ≡ some b
      → IsVolume b k.disk
      → IsLive (get_or (padded 8 name_str) 0 0)
      → find_file b (padded 8 name_str) (padded 3 ext_str) k.disk ≡ none
      → IsStr text_of
      → length (utf8 text_of) < 2 ^ 32
      → Made given name_str text_of k (make_file given k)
  make_file-cat_file r n mounted v live absent s small = rw (make_file-resolved r n mounted) (
      made-Ends r mounted s created _ (
        write_new_file-IsFile b (padded 8 name_str) (padded 3 ext_str) (utf8 text_of) k.disk v
          (length-padded 8 name_str) (length-padded 3 ext_str) live absent small))
