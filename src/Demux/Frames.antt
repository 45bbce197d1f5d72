-- ===== src/Demux/Frames.antt =====
-- Framing does not depend on where the chunks are cut (src/docker/demux.ts).
use musdash.Prelude.{
  ℕ, zero, suc, ◌+◌, ◌-◌, ◌≤◌, ◌<◌, ◌⊎◌, ap₂, ◌≡◌, refl, sym, ◌∙◌, ap, List, [], ◌∷◌, ◌++◌, arith,
  if◌then◌else◌, ltb, length, drop, length-drop, length-append, take-append, drop-append,
  get_elem?-append, inl, inr,
}
use musdash.Demux.{
  Frame, header_len, max_payload, declared, frame_of, Parsed, corrupt, parsed, with_frame,
  parse_loop, parse,
}

-- More fuel than the length changes nothing.
parse_loop_fuel :
    (f g : ℕ) (buf : List ℕ) → length buf ≤ f → length buf ≤ g → parse_loop f buf ≡ parse_loop g buf
unfolding parse_loop
parse_loop_fuel zero zero buf hf hg = refl
parse_loop_fuel zero (suc g) buf hf hg = ground arith
parse_loop_fuel (suc f) zero buf hf hg = ground arith
parse_loop_fuel (suc f) (suc g) buf hf hg = ground (
  arith,
  length-drop {0} (header_len + declared buf) buf,
  parse_loop_fuel f g (drop (header_len + declared buf) buf),
)

-- The step of parse, with no fuel.
pub parse_lem :
    (buf : List ℕ)
    → parse buf ≡ (
        if ltb (length buf) header_len
        then parsed [] buf
        else if ltb max_payload (declared buf)
        then corrupt (declared buf)
        else if ltb (length buf - header_len) (declared buf)
        then parsed [] buf
        else with_frame (frame_of buf) (parse (drop (header_len + declared buf) buf)))
unfolding parse parse_loop
parse_lem [] = refl
parse_lem (b ∷ bs) =
    let buf = b ∷ bs in
    let rest = drop (header_len + declared buf) buf in
    rw (
      parse_loop_fuel (length bs) (length rest) rest
        (omega (arith, length-drop {0} (header_len + declared buf) buf)) (omega arith))

abbrev pub prepend : List Frame → Parsed → Parsed
prepend [] p = p
prepend (fr ∷ frames) p = with_frame fr (prepend frames p)

-- A whole header and a whole payload read the same with more bytes behind them.
declared-append :
    (buf more : List ℕ) → header_len ≤ length buf → declared (buf ++ more) ≡ declared buf
declared-append buf more h = rw (
  get_elem?-append buf more 4 (omega arith),
  get_elem?-append buf more 5 (omega arith),
  get_elem?-append buf more 6 (omega arith),
  get_elem?-append buf more 7 (omega arith),
)

frame_of-append :
    (buf more : List ℕ)
    → header_len ≤ length buf
    → declared buf ≤ length buf - header_len
    → frame_of (buf ++ more) ≡ frame_of buf
frame_of-append buf more h k = rw (
  declared-append buf more h,
  get_elem?-append buf more 0 (omega arith),
  drop-append header_len buf more h,
  take-append (declared buf) (drop header_len buf) more
      (omega (arith, length-drop {0} header_len buf)),
)

-- The buffer begins with a whole frame.
pub record IsWhole (buf : List ℕ) : Type 0 where
  pub header : header_len ≤ length buf
  pub within_cap : declared buf ≤ max_payload
  pub present : declared buf ≤ length buf - header_len

abbrev pub after_frame : List ℕ → List ℕ
after_frame buf = drop (header_len + declared buf) buf

pub parse_whole :
    (buf : List ℕ) → IsWhole buf → parse buf ≡ with_frame (frame_of buf) (parse (after_frame buf))
parse_whole buf w = parse_lem buf ∙ ground arith

with_frame_inv :
    (fr : Frame) (p : Parsed) (frames : List Frame) (rest : List ℕ)
    → with_frame fr p ≡ parsed frames rest
    → (others : List Frame) × (frames ≡ fr ∷ others) × (p ≡ parsed others rest)
with_frame_inv fr (corrupt n) frames rest h = cc
with_frame_inv fr (parsed others r) frames rest h = (others, ground arith, ground arith)

step_inv :
    (buf : List ℕ) (p : Parsed) (frames : List Frame) (rest : List ℕ)
    → (if ltb (length buf) header_len
        then parsed [] buf
        else if ltb max_payload (declared buf)
        then corrupt (declared buf)
        else if ltb (length buf - header_len) (declared buf)
        then parsed [] buf
        else p)
      ≡ parsed frames rest
    → ((frames ≡ []) × (rest ≡ buf)) ⊎ (IsWhole buf × (p ≡ parsed frames rest))
step_inv buf p frames rest h = ground arith

parse_inv :
    (buf : List ℕ) (frames : List Frame) (rest : List ℕ)
    → parse buf ≡ parsed frames rest
    → ((frames ≡ []) × (rest ≡ buf))
      ⊎ (IsWhole buf
          × ((others : List Frame) × (frames ≡ frame_of buf ∷ others)
              × (parse (after_frame buf) ≡ parsed others rest)))
parse_inv buf frames rest h =
    elim (step_inv buf (with_frame (frame_of buf) (parse (after_frame buf))) frames rest
      (sym (parse_lem buf) ∙ h)) [
        | inl none_whole ↦ inl none_whole
        | inr (w, e) ↦
            inr (w, with_frame_inv (frame_of buf) (parse (after_frame buf)) frames rest e)
      ]

IsWhole-append : (buf more : List ℕ) → IsWhole buf → IsWhole (buf ++ more)
IsWhole-append buf more w = record {
  header = omega (arith, length-append {0} buf more);
  within_cap = rw (declared-append buf more w.header) w.within_cap;
  present = rw (declared-append buf more w.header) (omega (arith, length-append {0} buf more));
}

after_frame-append :
    (buf more : List ℕ) → IsWhole buf → after_frame (buf ++ more) ≡ after_frame buf ++ more
after_frame-append buf more w = rw (
  declared-append buf more w.header,
  drop-append (header_len + declared buf) buf more (omega (arith, w.header, w.present)),
)

parse_whole-append :
    (buf more : List ℕ)
    → IsWhole buf
    → parse (buf ++ more) ≡ with_frame (frame_of buf) (parse (after_frame buf ++ more))
parse_whole-append buf more w =
    parse_whole (buf ++ more) (IsWhole-append buf more w)
    ∙ ap₂ with_frame (frame_of-append buf more w.header w.present)
        (ap parse (after_frame-append buf more w))

parse_append_bounded :
    (n : ℕ) (buf more : List ℕ) (frames : List Frame) (rest : List ℕ)
    → length buf ≤ n
    → parse buf ≡ parsed frames rest
    → parse (buf ++ more) ≡ prepend frames (parse (rest ++ more))
parse_append_bounded zero buf more frames rest le h = elim (parse_inv buf frames rest h) [
  | inl (no_frames, same) ↦ rw (no_frames, same)
  | inr (w, (others, e, h')) ↦ absurd (omega (arith, w.header))
]
parse_append_bounded (suc n) buf more frames rest le h = elim (parse_inv buf frames rest h) [
  | inl (no_frames, same) ↦ rw (no_frames, same)
  | inr (w, (others, e, h')) ↦ rw e (
      parse_whole-append buf more w
      ∙ ap (with_frame (frame_of buf)) (
          parse_append_bounded n (after_frame buf) more others rest
            (omega (arith, w.header, length-drop {0} (header_len + declared buf) buf)) h'))
]

pub parse_append :
    (buf more : List ℕ) (frames : List Frame) (rest : List ℕ)
    → parse buf ≡ parsed frames rest
    → parse (buf ++ more) ≡ prepend frames (parse (rest ++ more))
parse_append buf more frames rest h =
    parse_append_bounded (length buf) buf more frames rest (omega arith) h

corrupt_inv : (fr : Frame) (p : Parsed) (n : ℕ) → with_frame fr p ≡ corrupt n → p ≡ corrupt n
corrupt_inv fr (corrupt m) n h = h
corrupt_inv fr (parsed others r) n h = cc

parse_corrupt_inv :
    (buf : List ℕ) (p : Parsed) (n : ℕ)
    → (if ltb (length buf) header_len
        then parsed [] buf
        else if ltb max_payload (declared buf)
        then corrupt (declared buf)
        else if ltb (length buf - header_len) (declared buf)
        then parsed [] buf
        else p)
      ≡ corrupt n
    → ((header_len ≤ length buf) × (max_payload < declared buf) × (declared buf ≡ n))
      ⊎ (IsWhole buf × (p ≡ corrupt n))
parse_corrupt_inv buf p n h = ground arith

parse_too_large :
    (buf : List ℕ)
    → header_len ≤ length buf
    → max_payload < declared buf
    → parse buf ≡ corrupt (declared buf)
parse_too_large buf h k = parse_lem buf ∙ ground arith

corrupt_cases :
    (buf : List ℕ) (n : ℕ)
    → parse buf ≡ corrupt n
    → ((header_len ≤ length buf) × (max_payload < declared buf) × (declared buf ≡ n))
      ⊎ (IsWhole buf × (with_frame (frame_of buf) (parse (after_frame buf)) ≡ corrupt n))
corrupt_cases buf n h =
    parse_corrupt_inv buf (with_frame (frame_of buf) (parse (after_frame buf))) n
      (sym (parse_lem buf) ∙ h)

large_append :
    (buf more : List ℕ) (n : ℕ)
    → header_len ≤ length buf
    → max_payload < declared buf
    → declared buf ≡ n
    → parse (buf ++ more) ≡ corrupt n
large_append buf more n header large same =
    parse_too_large (buf ++ more) (omega (arith, length-append {0} buf more))
      (rw (declared-append buf more header) large)
    ∙ ap corrupt (declared-append buf more header ∙ same)

parse_corrupt_bounded :
    (f : ℕ) (buf more : List ℕ) (n : ℕ)
    → length buf ≤ f
    → parse buf ≡ corrupt n
    → parse (buf ++ more) ≡ corrupt n
parse_corrupt_bounded zero buf more n le h = elim (corrupt_cases buf n h) [
  | inl (header, large, same) ↦ large_append buf more n header large same
  | inr (w, e) ↦ absurd (omega (arith, w.header))
]
parse_corrupt_bounded (suc f) buf more n le h = elim (corrupt_cases buf n h) [
  | inl (header, large, same) ↦ large_append buf more n header large same
  | inr (w, e) ↦
      parse_whole-append buf more w
      ∙ ap (with_frame (frame_of buf)) (
          parse_corrupt_bounded f (after_frame buf) more n
            (omega (arith, w.header, length-drop {0} (header_len + declared buf) buf))
            (corrupt_inv (frame_of buf) (parse (after_frame buf)) n e))
]

-- Once a header declares too much, no later byte mends it.
pub parse_corrupt :
    (buf more : List ℕ) (n : ℕ) → parse buf ≡ corrupt n → parse (buf ++ more) ≡ corrupt n
parse_corrupt buf more n h = parse_corrupt_bounded (length buf) buf more n (omega arith) h

-- What push keeps holds no whole frame.
parse_rest_bounded :
    (f : ℕ) (buf : List ℕ) (frames : List Frame) (rest : List ℕ)
    → length buf ≤ f
    → parse buf ≡ parsed frames rest
    → parse rest ≡ parsed [] rest
parse_rest_bounded zero buf frames rest le h = elim (parse_inv buf frames rest h) [
  | inl (no_frames, same) ↦ rw same (h ∙ rw (no_frames, same))
  | inr (w, (others, e, h')) ↦ absurd (omega (arith, w.header))
]
parse_rest_bounded (suc f) buf frames rest le h = elim (parse_inv buf frames rest h) [
  | inl (no_frames, same) ↦ rw same (h ∙ rw (no_frames, same))
  | inr (w, (others, e, h')) ↦
      parse_rest_bounded f (after_frame buf) others rest
        (omega (arith, w.header, length-drop {0} (header_len + declared buf) buf)) h'
]

pub parse_rest :
    (buf : List ℕ) (frames : List Frame) (rest : List ℕ)
    → parse buf ≡ parsed frames rest
    → parse rest ≡ parsed [] rest
parse_rest buf frames rest h = parse_rest_bounded (length buf) buf frames rest (omega arith) h
