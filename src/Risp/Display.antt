-- ===== src/Risp/Display.antt =====
-- How expressions print (src/parser.rs: `Display` for `RispKey` and `RispExp`).
use sil_os.Prelude.{ℕ, Bool, true, false, List, [], ◌∷◌, ◌++◌, codes, join_by}
use sil_os.Risp.{
  RispExp, RispExps, RispMap, RispKey, string_key, number_key, bool_key, bool, symbol, number,
  string, list, map, func, lambda, syscall, exps_nil, exps_cons, map_nil, map_cons,
}
use sil_os.Risp.System.{Floats}

abbrev pub show_bool : Bool → List ℕ
show_bool true = codes "true"
show_bool false = codes "false"

module _ {F : Type 0} (fl : Floats F) where
  abbrev pub show_key : RispKey → List ℕ
  show_key (string_key s) = codes "\"" ++ (s ++ codes "\"")
  show_key (number_key n) = fl.show_i64 n
  show_key (bool_key b) = show_bool b

  unfoldable mutual
    pub display : RispExp F → List ℕ
    display (bool a) = show_bool a
    display (symbol s) = s
    display (number n) = fl.show n
    display (string s) = s
    display (list es) = codes "(" ++ (join_by (codes " ") (display_all es) ++ codes ")")
    display (map m) = codes "{" ++ (join_by (codes ", ") (display_pairs m) ++ codes "}")
    display (func f) = codes "<Function>"
    display (lambda params body env) = codes "<Lambda>"
    display (syscall cmd) = codes "<Syscall: [" ++ (join_by (codes ", ") cmd ++ codes "]>")

    pub display_all : RispExps F → List (List ℕ)
    display_all exps_nil = []
    display_all (exps_cons e es) = display e ∷ display_all es

    pub display_pairs : RispMap F → List (List ℕ)
    display_pairs map_nil = []
    display_pairs (map_cons k v m) = (show_key k ++ (codes ": " ++ display v)) ∷ display_pairs m
