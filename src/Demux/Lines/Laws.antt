-- ===== src/Demux/Lines/Laws.antt =====
-- Lines do not depend on where frames cut the text (src/docker/demux.ts, createLineAssembler).
use mathlib.Core.List.{map-append}
use musdash.Prelude.{
  ℕ, ◌≡◌, refl, sym, ◌∙◌, ap, ap₂, false, List, [], ◌∷◌, ◌++◌, map, arith, if◌then◌else◌, ◌==◌, All,
  ==_iff, Bool-cases, inl, inr,
}
use musdash.Prelude.Code.{Text}
use musdash.Demux.{StreamType, stdout, stderr}
use musdash.Demux.Lines.{Split, cons_char, split_lines, strip_cr, Line, same_stream}

-- More text behind a split: it continues the unfinished line.
abbrev pub continue_split : Split → Text → Split
continue_split s t =
    let more = split_lines (s.last ++ t) in
    record { parts = s.parts ++ more.parts; last = more.last }

cons_char-continue :
    (c : ℕ) (s : Split) (t : Text)
    → (c == b'\n') ≡ false
    → cons_char c (continue_split s t) ≡ continue_split (cons_char c s) t
unfolding split_lines
cons_char-continue c s t h = split_parts s.parts refl
  where
    split_parts :
        (ps : List Text)
        → s.parts ≡ ps
        → cons_char c (continue_split s t) ≡ continue_split (cons_char c s) t
    split_parts [] e = rw (e, h)
    split_parts (p ∷ ps) e = rw e

pub split_lines-append : (s t : Text) → split_lines (s ++ t) ≡ continue_split (split_lines s) t
unfolding split_lines
split_lines-append [] t = refl
split_lines-append (c ∷ s) t = elim (Bool-cases (c == b'\n')) [
  | inl newline ↦ rw (newline, split_lines-append s t)
  | inr other ↦ rw (other, split_lines-append s t) (cons_char-continue c (split_lines s) t other)
]

abbrev pub HasNoNewline : Text → Type 0
HasNoNewline s = All (λ c. (c == b'\n') ≡ false) s

cons_char-HasNoNewline :
    (c : ℕ) (s : Split) (ps : List Text)
    → s.parts ≡ ps
    → (c == b'\n') ≡ false
    → All HasNoNewline s.parts × HasNoNewline s.last
    → All HasNoNewline (cons_char c s).parts × HasNoNewline (cons_char c s).last
cons_char-HasNoNewline c s [] e other h = rw e (tt, (other, h.1))
cons_char-HasNoNewline c s (p ∷ ps) e other h =
    let whole : All HasNoNewline (p ∷ ps) = rw e at h.0 in rw e (((other, whole.0), whole.1), h.1)

pub split_lines-HasNoNewline :
    (s : Text) → All HasNoNewline (split_lines s).parts × HasNoNewline (split_lines s).last
unfolding split_lines
split_lines-HasNoNewline [] = (tt, tt)
split_lines-HasNoNewline (c ∷ s) = elim (Bool-cases (c == b'\n')) [
  | inl newline ↦ rw newline ((tt, (split_lines-HasNoNewline s).0), (split_lines-HasNoNewline s).1)
  | inr other ↦ rw other (
      cons_char-HasNoNewline c (split_lines s) (split_lines s).parts refl other
        (split_lines-HasNoNewline s))
]

-- Joining the parts and the rest again.
abbrev pub join_lines : List Text → Text → Text
join_lines [] last = last
join_lines (p ∷ ps) last = p ++ b'\n' ∷ join_lines ps last

join_lines-cons_char :
    (c : ℕ) (s : Split) (ps : List Text)
    → s.parts ≡ ps
    → join_lines (cons_char c s).parts (cons_char c s).last ≡ c ∷ join_lines s.parts s.last
join_lines-cons_char c s [] e = rw e
join_lines-cons_char c s (p ∷ ps) e = rw e

-- The parts of a split text, with a newline behind each and the last part behind them, are the
-- text.
pub join_lines-split_lines : (s : Text) → join_lines (split_lines s).parts (split_lines s).last ≡ s
unfolding split_lines
join_lines-split_lines [] = refl
join_lines-split_lines (c ∷ s) = elim (Bool-cases (c == b'\n')) [
  | inl newline ↦
      rw newline
        (ap₂ (λ x xs. x ∷ xs) (sym ((==_iff c b'\n').0 newline)) (join_lines-split_lines s))
  | inr other ↦ rw other (
      join_lines-cons_char c (split_lines s) (split_lines s).parts refl
      ∙ ap (λ t. c ∷ t) (join_lines-split_lines s))
]

abbrev pub lines_for : StreamType → List Line → List Text
lines_for stream [] = []
lines_for stream (l ∷ ls) =
    if same_stream l.stream stream then l.text ∷ lines_for stream ls else lines_for stream ls

pub lines_for-append :
    (stream : StreamType) (k l : List Line)
    → lines_for stream (k ++ l) ≡ lines_for stream k ++ lines_for stream l
lines_for-append stream [] l = refl
lines_for-append stream (x ∷ k) l = ground (arith, lines_for-append stream k l)

pub lines_for-map :
    (from stream : StreamType) (ps : List Text)
    → lines_for stream (map (λ t. record { stream = from; text = strip_cr t }) ps)
      ≡ (if same_stream from stream then map strip_cr ps else [])
lines_for-map stdout stdout [] = refl
lines_for-map stdout stderr [] = refl
lines_for-map stderr stdout [] = refl
lines_for-map stderr stderr [] = refl
lines_for-map stdout stdout (p ∷ ps) = rw (lines_for-map stdout stdout ps)
lines_for-map stdout stderr (p ∷ ps) = lines_for-map stdout stderr ps
lines_for-map stderr stdout (p ∷ ps) = lines_for-map stderr stdout ps
lines_for-map stderr stderr (p ∷ ps) = rw (lines_for-map stderr stderr ps)

pub split_lines_plain :
    (s : Text) → HasNoNewline s → split_lines s ≡ record { parts = []; last = s }
unfolding split_lines
split_lines_plain [] h = refl
split_lines_plain (c ∷ s) (other, h) = rw (other, split_lines_plain s h)

pub lines_for-continue :
    (stream : StreamType) (x t : Text) (k l : List Line)
    → lines_for stream k ≡ map strip_cr (split_lines x).parts
    → lines_for stream l ≡ map strip_cr (split_lines ((split_lines x).last ++ t)).parts
    → lines_for stream (k ++ l) ≡ map strip_cr (split_lines (x ++ t)).parts
lines_for-continue stream x t k l hk hl =
    lines_for-append stream k l
    ∙ ap₂ ◌++◌ hk hl
    ∙ sym
        (map-append strip_cr (split_lines x).parts (split_lines ((split_lines x).last ++ t)).parts)
    ∙ ap (λ (s : Split). map strip_cr s.parts) (sym (split_lines-append x t))

pub last-continue :
    (x t : Text) → (split_lines ((split_lines x).last ++ t)).last ≡ (split_lines (x ++ t)).last
last-continue x t = ap (λ (s : Split). s.last) (sym (split_lines-append x t))
