-- ===== src/Risp/Grammar.antt =====
-- The reader accepts the language that it is written for (src/parser.rs).
use sil_os.Prelude.{
  ℕ, zero, suc, ◌+◌, ◌*◌, ◌≤◌, ◌≡◌, refl, ap, sym, ◌∙◌, arith, false, Option, some, List, [], ◌∷◌,
  ◌++◌, length, length-append, same_bytes, append_assoc,
}
use sil_os.Risp.{
  Token, RispExp, RispExps, list, exps_nil, exps_cons, ok, parse_atom, parse, read_seq, open_paren,
  close_paren, atom, as_list, push_front, and_then,
}

-- The tokens of an expression: an atom is one token, a list is the tokens of its members between
-- parentheses.
mutual
  pub data Written {F : Type 0} (pf : Token → Option F) : RispExp F → List Token → Type 0 where
    one_token :
        {e : RispExp F} (t : Token)
        → parse_atom pf t ≡ some e
        → same_bytes t open_paren ≡ false
        → same_bytes t close_paren ≡ false
        → Written pf e (t ∷ [])
    in_parens :
        {es : RispExps F} (ts : List Token)
        → AllWritten pf es ts
        → Written pf (list es) (open_paren ∷ (ts ++ close_paren ∷ []))

  pub data AllWritten {F : Type 0} (pf : Token → Option F) : RispExps F → List Token → Type 0 where
    none_written : AllWritten pf exps_nil []
    one_more :
        {e : RispExp F} {es : RispExps F} (ts us vs : List Token)
        → Written pf e ts
        → AllWritten pf es us
        → vs ≡ ts ++ us
        → AllWritten pf (exps_cons e es) vs

module _ {F : Type 0} (pf : Token → Option F) where
  first_token :
      (e : RispExp F) (ts : List Token)
      → Written pf e ts
      → (t : Token) × (rest : List Token) × (ts ≡ t ∷ rest) × (same_bytes t close_paren ≡ false)
  first_token e _ (one_token t a o c) = (t, [], refl, c)
  first_token _ _ (in_parens ts w) = (open_paren, ts ++ close_paren ∷ [], refl, refl)

  read_seq_more :
      (f : ℕ) (t : Token) (rest : List Token)
      → same_bytes t close_paren ≡ false
      → read_seq pf (suc f) (t ∷ rest) ≡ and_then pf (parse pf f (t ∷ rest)) (read_seq pf f)
  unfolding parse
  read_seq_more f t rest c = rw (c, read_seq) refl

  abbrev Reads : ℕ → Type 0
  Reads f =
      (e : RispExp F) (ts rest : List Token)
      → Written pf e ts
      → length ts * 2 + 1 ≤ f
      → parse pf f (ts ++ rest) ≡ ok e rest

  abbrev ReadsAll : ℕ → Type 0
  ReadsAll f =
      (es : RispExps F) (ts rest : List Token)
      → AllWritten pf es ts
      → length ts * 2 + 2 ≤ f
      → read_seq pf f (ts ++ close_paren ∷ rest) ≡ ok es rest

  parse_suc : (f : ℕ) → ReadsAll f → Reads (suc f)
  unfolding parse
  parse_suc f all e _ rest (one_token t a o c) h = rw (o, c, a, parse, atom) refl
  parse_suc f all _ _ rest (in_parens {es = es} ts w) h =
      ap (λ xs. as_list pf (read_seq pf f xs)) (append_assoc ts (close_paren ∷ []) rest)
      ∙ ap (as_list pf) (all es ts rest w (omega (arith, length-append ts (close_paren ∷ []))))

  read_seq_suc : (f : ℕ) → Reads f → ReadsAll f → ReadsAll (suc f)
  unfolding parse
  read_seq_suc f one all _ _ rest none_written h = refl
  read_seq_suc f one all _ vs rest (one_more {e = e} {es = es} ts us vs' w ws split) h =
      let (t, ts', first, c) = first_token e ts w in
      let size : length vs ≡ length ts + length us = ap length split ∙ length-append ts us in
      let grows : length ts ≡ suc (length ts') = ap length first in
      let tail = us ++ close_paren ∷ rest in
      let whole : vs ++ close_paren ∷ rest ≡ t ∷ (ts' ++ tail) =
        ap (λ xs. xs ++ close_paren ∷ rest) split
        ∙ append_assoc ts us (close_paren ∷ rest)
        ∙ ap (λ xs. xs ++ tail) first in
      let back : t ∷ (ts' ++ tail) ≡ ts ++ tail = ap (λ xs. xs ++ tail) (sym first) in
      ap (read_seq pf (suc f)) whole
      ∙ read_seq_more f t (ts' ++ tail) c
      ∙ ap (λ xs. and_then pf (parse pf f xs) (read_seq pf f)) back
      ∙ ap (λ r. and_then pf r (read_seq pf f)) (one e ts tail w (omega arith))
      ∙ ap (push_front pf e) (all es us rest ws (omega arith))

  both-Written : (f : ℕ) → Reads f × ReadsAll f
  both-Written zero =
      (λ e ts rest w h. absurd (omega arith), λ es ts rest w h. absurd (omega arith))
  both-Written (suc f) =
      let (one, all) = both-Written f in (parse_suc f all, read_seq_suc f one all)

  -- The tokens of an expression, with anything behind them, are read as that expression, and what
  -- is behind them is left, given two rounds for each token and one more.
  pub parse-Written :
      (f : ℕ) (e : RispExp F) (ts rest : List Token)
      → Written pf e ts
      → length ts * 2 + 1 ≤ f
      → parse pf f (ts ++ rest) ≡ ok e rest
  parse-Written f = (both-Written f).0
