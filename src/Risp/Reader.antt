-- ===== src/Risp/Reader.antt =====
-- The reader ends, and it reads what is written (src/parser.rs).
use sil_os.Prelude.{
  ℕ, zero, suc, ◌+◌, ◌*◌, ◌≤◌, ◌<◌, inl, inr, arith, Bool-cases, Option-cases, Option, List, [],
  ◌∷◌, length, same_bytes,
}
use sil_os.Risp.{
  Token, RispExp, RispExps, RispErr, Parsed, ok, err, panic, out_of_fuel, parse_atom, parse,
  read_seq, open_paren, close_paren, atom, as_list, push_front, and_then,
}

-- An answer within the fuel that leaves fewer than `n` tokens.
pub data Answer {A : Type 0} (n : ℕ) : Parsed A → Type 0 where
  reads : {a : A} {rest : List Token} → length rest < n → Answer n (ok a rest)
  fails : {e : RispErr} → Answer n (err e)
  panics : Answer n panic

push_front-Answer :
    {F : Type 0} (pf : Token → Option F) (n : ℕ) (e : RispExp F) (r : Parsed (RispExps F))
    → Answer n r
    → Answer n (push_front pf e r)
push_front-Answer pf n e (ok a rest) (reads h) = reads h
push_front-Answer pf n e (err x) fails = fails
push_front-Answer pf n e panic panics = panics
push_front-Answer pf n e out_of_fuel h = elim h [ ]

as_list-Answer :
    {F : Type 0} (pf : Token → Option F) (n : ℕ) (r : Parsed (RispExps F))
    → Answer n r
    → Answer (suc n) (as_list pf r)
as_list-Answer pf n (ok a rest) (reads h) = reads (omega arith)
as_list-Answer pf n (err x) fails = fails
as_list-Answer pf n panic panics = panics
as_list-Answer pf n out_of_fuel h = elim h [ ]

Answer-mono : {A : Type 0} (n m : ℕ) (r : Parsed A) → n ≤ m → Answer n r → Answer m r
Answer-mono n m (ok a rest) l (reads h) = reads (omega arith)
Answer-mono n m (err x) l fails = fails
Answer-mono n m panic l panics = panics
Answer-mono n m out_of_fuel l h = elim h [ ]

module _ {F : Type 0} (pf : Token → Option F) where
  atom-Answer :
      (token : Token) (rest : List Token) → Answer (suc (length rest)) (atom pf token rest)
  atom-Answer token rest = elim (Option-cases (parse_atom pf token)) [
    | inl e ↦ rw (e, atom) panics
    | inr (a, e) ↦ rw (e, atom) (reads (omega arith))
  ]

  and_then-Answer :
      (n : ℕ) (r : Parsed (RispExp F)) (k : List Token → Parsed (RispExps F))
      → Answer n r
      → ((rest : List Token) → length rest < n → Answer (length rest) (k rest))
      → Answer n (and_then pf r k)
  and_then-Answer n (ok e rest) k (reads h) f =
      push_front-Answer pf n e (k rest)
        (Answer-mono (length rest) n (k rest) (omega arith) (f rest h))
  and_then-Answer n (err x) k fails f = fails
  and_then-Answer n panic k panics f = panics
  and_then-Answer n out_of_fuel k h f = elim h [ ]

  -- What both readers do with the fuel `f`.
  abbrev Parses : ℕ → Type 0
  Parses f =
      (tokens : List Token) → length tokens * 2 + 1 ≤ f → Answer (length tokens) (parse pf f tokens)

  abbrev ReadsOn : ℕ → Type 0
  ReadsOn f = (xs : List Token) → length xs * 2 + 2 ≤ f → Answer (length xs) (read_seq pf f xs)

  parse_suc : (f : ℕ) → ReadsOn f → Parses (suc f)
  unfolding parse
  parse_suc f on [] h = fails
  parse_suc f on (token ∷ rest) h = elim (Bool-cases (same_bytes token open_paren)) [
    | inl e ↦
        rw (e, parse) (as_list-Answer pf (length rest) (read_seq pf f rest) (on rest (omega arith)))
    | inr e ↦ elim (Bool-cases (same_bytes token close_paren)) [
      | inl c ↦ rw (e, c, parse) fails
      | inr c ↦ rw (e, c, parse) (atom-Answer token rest)
    ]
  ]

  read_seq_suc : (f : ℕ) → Parses f → ReadsOn f → ReadsOn (suc f)
  unfolding parse
  read_seq_suc f p on [] h = fails
  read_seq_suc f p on (token ∷ rest) h = elim (Bool-cases (same_bytes token close_paren)) [
    | inl c ↦ rw (c, read_seq) (reads (omega arith))
    | inr c ↦
        rw (c, read_seq)
          (and_then-Answer (suc (length rest)) (parse pf f (token ∷ rest)) (read_seq pf f)
            (p (token ∷ rest) (omega arith)) (λ r l. on r (omega arith)))
  ]

  both-Answer : (f : ℕ) → Parses f × ReadsOn f
  both-Answer zero = (λ tokens h. absurd (omega arith), λ xs h. absurd (omega arith))
  both-Answer (suc f) = let (p, on) = both-Answer f in (parse_suc f on, read_seq_suc f p on)

  -- `parse` ends on every list of tokens: two rounds for each token and one more are enough for an
  -- expression, an error or a panic, and what an expression leaves is shorter than the list.
  pub parse-Answer :
      (f : ℕ) (tokens : List Token)
      → length tokens * 2 + 1 ≤ f
      → Answer (length tokens) (parse pf f tokens)
  parse-Answer f = (both-Answer f).0
