-- ===== src/Env/Interpolate/Templates.antt =====
-- What interpolate (src/env/interpolate.ts) does to a value that was written as pieces: plain text,
-- whose dollar signs are doubled, and references.
use musdash.Prelude.{
  ℕ, ◌+◌, ◌≡◌, refl, sym, ap, ◌∙◌, Bool, true, ◌&&◌, Option, some, List, [], ◌∷◌, ◌++◌, arith,
  if◌then◌else◌, ◌==◌, inl, inr, Bool-cases, all, append_assoc, length, length-append, ==_iff,
}
use musdash.Prelude.Code.{Text, text_eq}
use musdash.Env.Chars.{is_letter, is_name_char, is_name}
use musdash.Env.RoundTrip.{name-is_name_char}
use musdash.Env.File.{Vars}
use musdash.Env.Interpolate.{
  Interpolated, reference, expanded, self_reference, undefined_name, then_do, prepend,
  name_until_brace, valid_name, match_after_dollar, match_at, lookup, found, replacement,
  expand_from, expand,
}

pub data Piece : Type 0 where
  plain : Text → Piece
  refers : (name : Text) → Piece

unfoldable pub double_dollars : Text → Text
double_dollars [] = []
double_dollars (c ∷ s) = if c == 36 then 36 ∷ 36 ∷ double_dollars s else c ∷ double_dollars s

abbrev write_piece : Piece → Text
write_piece (plain s) = double_dollars s
write_piece (refers name) = 36 ∷ 123 ∷ (name ++ (125 ∷ []))

abbrev pub write : List Piece → Text
write [] = []
write (p ∷ ps) = write_piece p ++ write ps

abbrev pub names_valid : List Piece → Bool
names_valid [] = true
names_valid (plain s ∷ ps) = names_valid ps
names_valid (refers name ∷ ps) = is_name name && names_valid ps

name_until_brace-append :
    (name s : Text)
    → all is_name_char name ≡ true
    → name_until_brace (name ++ (125 ∷ s)) ≡ some name
unfolding name_until_brace is_name_char is_letter
name_until_brace-append [] s h = refl
name_until_brace-append (c ∷ name) s h =
    rw (name_until_brace-append name s (ground arith)) (ground arith)

match-reference :
    (name s : Text) → is_name name ≡ true → match_at 36 (123 ∷ (name ++ (125 ∷ s))) ≡ reference name
unfolding match_at match_after_dollar valid_name
match-reference name s h =
    rw (name_until_brace-append name s (name-is_name_char name h)) (rw h refl)

prepend-nil : (r : Interpolated Text) → prepend [] r ≡ r
prepend-nil (expanded a) = refl
prepend-nil (self_reference k) = refl
prepend-nil (undefined_name k m) = refl

prepend-prepend :
    (c : ℕ) (s : Text) (r : Interpolated Text) → prepend (c ∷ []) (prepend s r) ≡ prepend (c ∷ s) r
prepend-prepend c s (expanded a) = refl
prepend-prepend c s (self_reference k) = refl
prepend-prepend c s (undefined_name k m) = refl

module _ (inherited : Text → Option Text) where
  -- The value of a piece: a reference is replaced by the value as it stands in the input.
  fill_piece : Text → Vars → Piece → Interpolated Text
  fill_piece key vars (plain s) = expanded s
  fill_piece key vars (refers name) =
      if text_eq name key
      then self_reference key
      else found inherited key name (lookup inherited name vars)

  unfoldable pub fill : Text → Vars → List Piece → Interpolated Text
  unfolding fill_piece
  fill key vars [] = expanded []
  fill key vars (p ∷ ps) = then_do (fill_piece key vars p) (λ v. prepend v (fill key vars ps))

  expand_from-skip :
      (key : Text) (vars : Vars) (s t : Text)
      → expand_from inherited key vars (length s) (s ++ t) ≡ expand_from inherited key vars 0 t
  unfolding expand_from
  expand_from-skip key vars [] t = refl
  expand_from-skip key vars (c ∷ s) t = expand_from-skip key vars s t

  expand_from-double_dollars :
      (key : Text) (vars : Vars) (s t : Text)
      → expand_from inherited key vars 0 (double_dollars s ++ t)
        ≡ prepend s (expand_from inherited key vars 0 t)
  unfolding expand_from double_dollars match_at match_after_dollar replacement
  expand_from-double_dollars key vars [] t = sym (prepend-nil _)
  expand_from-double_dollars key vars (c ∷ s) t =
      let rest = expand_from-double_dollars key vars s t in
      elim (Bool-cases (c == 36)) [
        | inl e ↦ rw e (
            ap (prepend (36 ∷ [])) rest
            ∙ prepend-prepend 36 s _
            ∙ ap (λ d. prepend (d ∷ s) (expand_from inherited key vars 0 t))
                (sym ((==_iff c 36).0 e)))
        | inr e ↦ rw e (rw e (ap (prepend (c ∷ [])) rest ∙ prepend-prepend c s _))
      ]

  expand_from-past_reference :
      (key : Text) (vars : Vars) (name t : Text)
      → expand_from inherited key vars (length name + 2) (123 ∷ (name ++ (125 ∷ t)))
        ≡ expand_from inherited key vars 0 t
  expand_from-past_reference key vars name t =
      let close = name ++ (125 ∷ []) in
      ap (λ n. expand_from inherited key vars n (123 ∷ (name ++ (125 ∷ t))))
        (omega (arith, length-append name (125 ∷ [])))
      ∙ (ap (λ u. expand_from inherited key vars (length (123 ∷ close)) (123 ∷ u))
            (sym (append_assoc name (125 ∷ []) t))
          ∙ expand_from-skip key vars (123 ∷ close) t)

  expand_from-reference :
      (key : Text) (vars : Vars) (name t : Text)
      → is_name name ≡ true
      → expand_from inherited key vars 0 (36 ∷ 123 ∷ (name ++ (125 ∷ t)))
        ≡ then_do
            (fill_piece key vars (refers name))
            (λ v. prepend v (expand_from inherited key vars 0 t))
  unfolding fill_piece expand_from replacement
  expand_from-reference key vars name t h =
      rw (match-reference name t h, expand_from-past_reference key vars name t) refl

  no_text : (key : Text) (vars : Vars) → expand_from inherited key vars 0 [] ≡ expanded []
  unfolding expand_from
  no_text key vars = refl

  expand_from-write :
      (key : Text) (vars : Vars) (ps : List Piece)
      → names_valid ps ≡ true
      → expand_from inherited key vars 0 (write ps) ≡ fill key vars ps
  unfolding fill fill_piece
  expand_from-write key vars [] h = no_text key vars
  expand_from-write key vars (plain s ∷ ps) h =
      expand_from-double_dollars key vars s (write ps)
      ∙ ap (prepend s) (expand_from-write key vars ps h)
  expand_from-write key vars (refers name ∷ ps) h =
      ap (λ u. expand_from inherited key vars 0 (36 ∷ 123 ∷ u))
        (append_assoc name (125 ∷ []) (write ps))
      ∙ expand_from-reference key vars name (write ps) (ground arith)
      ∙ ap (λ r. then_do (fill_piece key vars (refers name)) (λ v. prepend v r))
          (expand_from-write key vars ps (ground arith))

  -- Expanding a value that was written as pieces puts every piece's value in its place: plain text
  -- as it is, dollar signs included, and for a reference the value of the name as it stands in the
  -- input, not expanded again. The first piece, from the left, that refers to the key itself or to a
  -- name without a value is the error. The names referred to are valid.
  pub expand-write :
      (key : Text) (vars : Vars) (ps : List Piece)
      → names_valid ps ≡ true
      → expand inherited key vars (write ps) ≡ fill key vars ps
  unfolding expand
  expand-write key vars ps h = expand_from-write key vars ps h
