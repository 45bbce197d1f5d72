-- ===== src/Compose/Placeholders/Draws.antt =====
-- What draw (src/compose/placeholders.ts) makes of the bytes of its random source.
use musdash.Prelude.{
  ℕ, suc, zero, ◌+◌, ◌%◌, ◌≤◌, ◌<◌, ◌≡◌, refl, sym, ap, ◌∙◌, Bool, true, false, ◌&&◌, Option, none,
  some, List, [], ◌∷◌, ◌++◌, arith, if◌then◌else◌, ◌==◌, ltb, leb, leb→le, length, length-append,
  take, take-append, append_assoc, append-nil, inl, inr, Bool-cases, get_elem?,
}
use musdash.Prelude.Code.{Text}
use musdash.Compose.Placeholders.{
  Drawing, complete, partial, limit, one_char, picked, use_bytes, draw_from, draw, max_refills,
}

take-all : (n : ℕ) (s t : Text) → length s ≡ n → take n (s ++ t) ≡ s
take-all zero [] t e = refl
take-all zero (c ∷ s) t e = absurd (omega (arith, e))
take-all (suc n) [] t e = absurd (omega (arith, e))
take-all (suc n) (c ∷ s) t e = ap (λ u. c ∷ u) (take-all n s t (omega (arith, e)))

module _ (alphabet : Text) (size : ℕ) where
  -- The characters of the bytes that are used, in order.
  unfoldable pub usable : List ℕ → Text
  usable [] = []
  usable (byte ∷ bytes) = picked alphabet size byte ++ usable bytes

  -- The bytes of the refills from the i-th on.
  abbrev pub filled : (ℕ → List ℕ) → ℕ → ℕ → List ℕ
  filled rng zero i = []
  filled rng (suc left) i = rng i ++ filled rng left (i + 1)

  usable-append : (xs ys : List ℕ) → usable (xs ++ ys) ≡ usable xs ++ usable ys
  unfolding usable
  usable-append [] ys = refl
  usable-append (x ∷ xs) ys =
      ap (λ t. picked alphabet size x ++ t) (usable-append xs ys)
      ∙ sym (append_assoc (picked alphabet size x) (usable xs) (usable ys))

  -- What use_bytes returns when `all` is the value so far with all that the buffer adds.
  unfoldable drawing : Text → Drawing
  drawing all = if leb size (length all) then complete (take size all) else partial all

  length-one_char : (o : Option ℕ) → length (one_char alphabet size o) ≤ 1
  length-one_char none = omega arith
  length-one_char (some c) = omega arith

  length-picked : (byte : ℕ) → length (picked alphabet size byte) ≤ 1
  unfolding picked
  length-picked byte = elim (Bool-cases (ltb byte (limit alphabet size))) [
    | inl e ↦ rw e (length-one_char (get_elem? alphabet (byte % length alphabet)))
    | inr e ↦ rw e (omega arith)
  ]

  picked-skipped :
      (byte : ℕ) → ltb byte (limit alphabet size) ≡ false → picked alphabet size byte ≡ []
  unfolding picked
  picked-skipped byte e = rw e refl

  enough : (s t : Text) → size ≤ length s → leb size (length (s ++ t)) ≡ true
  enough s t h = ground (arith, length-append s t)

  drawing-complete : (s t : Text) → length s ≡ size → drawing (s ++ t) ≡ complete s
  unfolding drawing
  drawing-complete s t e = rw (enough s t (omega arith), take-all size s t e) refl

  drawing-partial : (out : Text) → length out < size → drawing out ≡ partial out
  unfolding drawing
  drawing-partial out h = ground (arith, h)

  -- A value that is not complete after a byte is still too short.
  still_short :
      (byte : ℕ) (out : Text)
      → length out < size
      → (ltb byte (limit alphabet size) && (length (out ++ picked alphabet size byte) == size))
        ≡ false
      → length (out ++ picked alphabet size byte) < size
  still_short byte out h e = elim (Bool-cases (ltb byte (limit alphabet size))) [
    | inl used ↦
        ground (arith, used, length-append out (picked alphabet size byte), length-picked byte)
    | inr skipped ↦ rw (picked-skipped byte skipped) (omega (arith, h, length-append out []))
  ]

  full : (b : Bool) (n : ℕ) → (b && (n == size)) ≡ true → n ≡ size
  full b n e = ground arith

  use_bytes-drawing :
      (bytes : List ℕ) (out : Text)
      → length out < size
      → use_bytes alphabet size bytes out ≡ drawing (out ++ usable bytes)
  unfolding use_bytes usable
  use_bytes-drawing [] out h = rw (append-nil out) (sym (drawing-partial out h))
  use_bytes-drawing (byte ∷ bytes) out h =
      let p = picked alphabet size byte in
      let longer = out ++ p in
      let assoc = ap drawing (append_assoc out p (usable bytes)) in
      elim (Bool-cases (ltb byte (limit alphabet size) && (length longer == size))) [
        | inl e ↦ rw e (sym (drawing-complete longer (usable bytes) (full _ _ e)) ∙ assoc)
        | inr e ↦ rw e (use_bytes-drawing bytes longer (still_short byte out h e) ∙ assoc)
      ]

  -- The value is the first `size` of the characters, when there are so many.
  unfoldable pub first_of : Text → Option Text
  first_of all = if leb size (length all) then some (take size all) else none

  first_of-append : (s t : Text) → size ≤ length s → first_of (s ++ t) ≡ some (take size s)
  unfolding first_of
  first_of-append s t h = rw (enough s t h) (ap some (take-append size s t h))

  first_of-short : (s : Text) → length s < size → first_of s ≡ none
  unfolding first_of
  first_of-short s h = ground (arith, h)

  after_drawing : (ℕ → List ℕ) → ℕ → ℕ → Drawing → Option Text
  after_drawing rng left i (complete value) = some value
  after_drawing rng left i (partial longer) = draw_from alphabet size rng left (i + 1) longer

  draw_from-suc :
      (rng : ℕ → List ℕ) (left i : ℕ) (out : Text)
      → draw_from alphabet size rng (suc left) i out
        ≡ after_drawing rng left i (use_bytes alphabet size (rng i) out)
  unfolding draw_from after_drawing
  draw_from-suc rng left i out = refl

  after_drawing-drawing :
      (rng : ℕ → List ℕ) (left i : ℕ) (x t : Text)
      → ((out : Text)
          → length out < size
          → draw_from alphabet size rng left (i + 1) out ≡ first_of (out ++ t))
      → after_drawing rng left i (drawing x) ≡ first_of (x ++ t)
  unfolding after_drawing drawing
  after_drawing-drawing rng left i x t ih = elim (Bool-cases (leb size (length x))) [
    | inl e ↦ rw e (sym (first_of-append x t (leb→le _ _ e)))
    | inr e ↦ rw e (ih x (ground (arith, e)))
  ]

  draw_from-first_of :
      (rng : ℕ → List ℕ) (left i : ℕ) (out : Text)
      → length out < size
      → draw_from alphabet size rng left i out ≡ first_of (out ++ usable (filled rng left i))
  unfolding draw_from usable
  draw_from-first_of rng zero i out h = sym (first_of-short (out ++ []) (rw (append-nil out) h))
  draw_from-first_of rng (suc left) i out h =
      draw_from-suc rng left i out
      ∙ ap (after_drawing rng left i) (use_bytes-drawing (rng i) out h)
      ∙ after_drawing-drawing rng left i (out ++ usable (rng i)) (usable (filled rng left (i + 1)))
          (draw_from-first_of rng left (i + 1))
      ∙ ap first_of (
          append_assoc out (usable (rng i)) (usable (filled rng left (i + 1)))
          ∙ ap (λ t. out ++ t) (sym (usable-append (rng i) (filled rng left (i + 1)))))

  -- A value of at least one character is made of the first usable bytes of the 64 buffers, in order,
  -- one character for each: when they have enough usable bytes the draw returns that value, and
  -- otherwise it gives up.
  pub draw-first_of :
      (rng : ℕ → List ℕ)
      → 0 < size
      → draw alphabet size rng ≡ first_of (usable (filled rng max_refills 0))
  unfolding draw
  draw-first_of rng h = draw_from-first_of rng max_refills 0 [] h
