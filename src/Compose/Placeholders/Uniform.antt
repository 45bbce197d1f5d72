-- ===== src/Compose/Placeholders/Uniform.antt =====
-- No character is likelier than another in draw (src/compose/placeholders.ts).
use musdash.Prelude.{
  ℕ, suc, zero, ◌+◌, ◌-◌, ◌*◌, ◌/◌, ◌%◌, ◌≤◌, ◌<◌, ◌≡◌, refl, ap, ◌∙◌, Bool, true, false, ◌&&◌,
  ◌||◌, Option, none, some, [], ◌∷◌, ◌++◌, arith, if◌then◌else◌, ltb, lt→ltb, length, get_elem?,
  drop, any, Bool-cases, inl, inr,
}
use musdash.Prelude.Code.{Text}
use native.Mathlib.Nat.{mod-add-div, mod-eq_of_lt, mul-add-mod_self_right}
use musdash.Compose.Placeholders.{Drawing, complete, partial, limit, one_char, picked, use_bytes}

-- How many numbers below `m` pass the test.
unfoldable pub count_below : (ℕ → Bool) → ℕ → ℕ
count_below f zero = 0
count_below f (suc m) = count_below f m + (if f m then 1 else 0)

-- How many characters of an alphabet pass the test.
unfoldable pub count_chars : (ℕ → Bool) → Text → ℕ
count_chars p [] = 0
count_chars p (c ∷ cs) = (if p c then 1 else 0) + count_chars p cs

count-same : (f : ℕ → Bool) (m k : ℕ) → m ≡ k → count_below f m ≡ count_below f k
count-same f m k e = ap (count_below f) e

count-suc :
    (f : ℕ → Bool) (m : ℕ) → count_below f (suc m) ≡ count_below f m + (if f m then 1 else 0)
unfolding count_below
count-suc f m = refl

count-pointwise :
    (f g : ℕ → Bool) (m : ℕ) → ((b : ℕ) → f b ≡ g b) → count_below f m ≡ count_below g m
unfolding count_below
count-pointwise f g zero h = refl
count-pointwise f g (suc m) h = rw (h m, count-pointwise f g m h) refl

count-first :
    (f : ℕ → Bool) (m : ℕ)
    → count_below f (suc m) ≡ (if f 0 then 1 else 0) + count_below (λ b. f (suc b)) m
unfolding count_below
count-first f zero = omega arith
count-first f (suc m) = omega (arith, count-first f m)

remainder-offset : (n k j : ℕ) → j < n → (k * n + j) % n ≡ j
remainder-offset n k j h = rw (mul-add-mod_self_right k n j, mod-eq_of_lt {n = j} {m = n} h) refl

-- A block of n numbers from a multiple of n on has each remainder once.
count-block :
    (g : ℕ → Bool) (n k j : ℕ)
    → j ≤ n
    → count_below (λ b. g (b % n)) (k * n + j)
      ≡ count_below (λ b. g (b % n)) (k * n) + count_below g j
unfolding count_below
count-block g n k zero h =
    count-same (λ b. g (b % n)) (k * n + 0) (k * n) (omega arith) ∙ omega arith
count-block g n k (suc j) h =
    count-same (λ b. g (b % n)) (k * n + suc j) (suc (k * n + j)) (omega arith)
    ∙ count-suc (λ b. g (b % n)) (k * n + j)
    ∙ rw (remainder-offset n k j h) (omega (arith, count-block g n k j (omega (arith, h))))

count-blocks : (g : ℕ → Bool) (n k : ℕ) → count_below (λ b. g (b % n)) (k * n) ≡ k * count_below g n
unfolding count_below
count-blocks g n zero = count-same (λ b. g (b % n)) (0 * n) 0 (omega arith) ∙ omega arith
count-blocks g n (suc k) =
    count-same (λ b. g (b % n)) (suc k * n) (k * n + n) (omega arith)
    ∙ count-block g n k n (omega arith)
    ∙ omega (arith, count-blocks g n k)

-- Below the bound, and from there on, where the bytes are skipped.
count-under :
    (f : ℕ → Bool) (bound k : ℕ)
    → k ≤ bound
    → count_below (λ b. ltb b bound && f b) k ≡ count_below f k
unfolding count_below
count-under f bound zero h = refl
count-under f bound (suc k) h =
    rw (lt→ltb k bound h) (omega (arith, count-under f bound k (omega (arith, h))))

past_bound : (d bound : ℕ) (x : Bool) → (ltb (d + bound) bound && x) ≡ false
past_bound d bound x = ground arith

count-over :
    (f : ℕ → Bool) (bound d : ℕ)
    → count_below (λ b. ltb b bound && f b) (d + bound) ≡ count_below f bound
unfolding count_below
count-over f bound zero =
    count-same (λ b. ltb b bound && f b) (0 + bound) bound (omega arith)
    ∙ count-under f bound bound (omega arith)
count-over f bound (suc d) =
    count-same (λ b. ltb b bound && f b) (suc d + bound) (suc (d + bound)) (omega arith)
    ∙ count-suc (λ b. ltb b bound && f b) (d + bound)
    ∙ rw (past_bound d bound (f (d + bound))) (omega (arith, count-over f bound d))

largest : (n total : ℕ) → total - total % n ≡ total / n * n
largest n total = omega (arith, mod-add-div total n)

count-uniform :
    (g : ℕ → Bool) (n total : ℕ)
    → count_below (λ b. ltb b (total - total % n) && g (b % n)) total ≡ total / n * count_below g n
count-uniform g n total =
    let whole = total / n * n in
    let parts = mod-add-div total n in
    ap (λ bound. count_below (λ b. ltb b bound && g (b % n)) total) (largest n total)
    ∙ count-same (λ b. ltb b whole && g (b % n)) total (total % n + whole) (omega (arith, parts))
    ∙ count-over (λ b. g (b % n)) whole (total % n)
    ∙ count-blocks g n (total / n)

-- The value so far after some bytes, whether it is complete or not.
abbrev pub value_of : Drawing → Text
value_of (complete value) = value
value_of (partial longer) = longer

module _ (alphabet : Text) (size : ℕ) where
  -- What one more byte adds to the value so far passes the test. A skipped byte adds nothing.
  abbrev pub adds : (ℕ → Bool) → Text → ℕ → Bool
  adds p out byte = any p (drop (length out) (value_of (use_bytes alphabet size (byte ∷ []) out)))

  value_of-if : (b : Bool) (s : Text) → value_of (if b then complete s else partial s) ≡ s
  value_of-if true s = refl
  value_of-if false s = refl

  drop-exact : (s t : Text) → drop (length s) (s ++ t) ≡ t
  drop-exact [] t = refl
  drop-exact (c ∷ s) t = drop-exact s t

  char_at : (ℕ → Bool) → ℕ → Bool
  char_at p i = any p (one_char alphabet size (get_elem? alphabet i))

  adds-char_at :
      (p : ℕ → Bool) (out : Text) (byte : ℕ)
      → adds p out byte ≡ (ltb byte (limit alphabet size) && char_at p (byte % length alphabet))
  unfolding use_bytes picked char_at
  adds-char_at p out byte =
      let longer = out ++ picked alphabet size byte in
      ap (λ s. any p (drop (length out) s)) (value_of-if _ longer)
      ∙ ap (any p) (drop-exact out (picked alphabet size byte))
      ∙ elim (Bool-cases (ltb byte (limit alphabet size))) [ inl e ↦ rw e refl | inr e ↦ rw e refl ]

one_char-same : (s t : Text) (o : Option ℕ) → one_char s 0 o ≡ one_char t 0 o
one_char-same s t none = refl
one_char-same s t (some c) = refl

count-chars :
    (p : ℕ → Bool) (alphabet : Text)
    → count_below (λ i. any p (one_char alphabet 0 (get_elem? alphabet i))) (length alphabet)
      ≡ count_chars p alphabet
unfolding count_below count_chars
count-chars p [] = refl
count-chars p (c ∷ cs) =
    count-first (λ i. any p (one_char (c ∷ cs) 0 (get_elem? (c ∷ cs) i))) (length cs)
    ∙ ap (λ n. (if p c || false then 1 else 0) + n)
        (count-pointwise _ _ (length cs)
            (λ b. ap (any p) (one_char-same (c ∷ cs) cs (get_elem? cs b)))
          ∙ count-chars p cs)
    ∙ ground arith

-- Whatever the value so far and whatever the test of a character, of the 256 bytes that draw may read
-- next, those that add a character which passes are as many as the characters of the alphabet which
-- pass, times the quotient of 256 by the size of the alphabet. So a byte adds each character of an
-- alphabet without repetition equally often.
pub use_bytes_is_uniform :
    (alphabet : Text) (size : ℕ) (p : ℕ → Bool) (out : Text)
    → count_below (adds alphabet size p out) 256 ≡ 256 / length alphabet * count_chars p alphabet
unfolding char_at
use_bytes_is_uniform alphabet size p out =
    count-pointwise _ _ 256 (adds-char_at alphabet size p out)
    ∙ count-uniform (char_at alphabet size p) (length alphabet) 256
    ∙ ap (λ n. 256 / length alphabet * n) (count-chars p alphabet)
