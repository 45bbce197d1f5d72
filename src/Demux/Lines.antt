-- ===== src/Demux/Lines.antt =====
-- The line assembler (src/docker/demux.ts, createLineAssembler). The text decoder is a parameter:
-- from its state and the payload it gives its new state and the text so far. Text is a list of
-- character codes.
pub mod Laws
pub mod Streams
use musdash.Prelude.{
  ℕ, suc, ◌≡◌, ◌≢◌, refl, sym, ◌∙◌, ap, ap₂, Bool, true, false, Option, none, some, List, [], ◌∷◌,
  ◌++◌, map, append_assoc, append-nil, arith, if◌then◌else◌, ◌==◌, ltb, length, All, Bool-cases,
  inl, inr,
}
use musdash.Prelude.Code.{Text}
use musdash.Demux.{StreamType, stdout, stderr, Frame}

-- `combined.split("\n")`: the parts before the last newline, and the part behind it.
pub record Split : Type 0 where
  pub parts : List Text
  pub last : Text

abbrev pub cons_char : ℕ → Split → Split
cons_char c s = elim (s.parts) [
  | [] ↦ record { parts = []; last = c ∷ s.last }
  | p ∷ ps ↦ record { parts = (c ∷ p) ∷ ps; last = s.last }
]

unfoldable pub split_lines : Text → Split
split_lines [] = record { parts = []; last = [] }
split_lines (c ∷ s) =
    let rest = split_lines s in
    if c == b'\n' then record { parts = [] ∷ rest.parts; last = rest.last } else cons_char c rest

-- `text.replace(/\r$/, "")`
unfoldable pub strip_cr : Text → Text
strip_cr [] = []
strip_cr (c ∷ []) = if c == b'\r' then [] else c ∷ []
strip_cr (c ∷ d ∷ s) = c ∷ strip_cr (d ∷ s)

pub record Line : Type 0 where
  pub stream : StreamType
  pub text : Text

pub record Half (S : Type 0) : Type 0 where
  pub partial : Text
  pub decoder : S

pub record Assembler (S : Type 0) : Type 0 where
  pub out : Half S
  pub err : Half S

module _ {S : Type 0} where
  abbrev pub half : StreamType → Assembler S → Half S
  half stdout a = a.out
  half stderr a = a.err

  abbrev pub with_half : StreamType → Half S → Assembler S → Assembler S
  with_half stdout h a = record a { out = h }
  with_half stderr h a = record a { err = h }

abbrev pub same_stream : StreamType → StreamType → Bool
same_stream stdout stdout = true
same_stream stderr stderr = true
same_stream _ _ = false

-- flush(): the unfinished lines, stdout first; the decoders are left as they are.
abbrev pub leftover : StreamType → Text → List Line
leftover stream [] = []
leftover stream (c ∷ s) = record { stream = stream; text = c ∷ s } ∷ []

module _ {S : Type 0} where
  unfoldable pub flush : Assembler S → List Line × Assembler S
  flush a = (
    leftover stdout a.out.partial ++ leftover stderr a.err.partial,
    record { out = record a.out { partial = [] }; err = record a.err { partial = [] } },
  )

module _ {S : Type 0} (decode : S → List ℕ → S × Text) where
  -- What a frame adds to its stream's half.
  abbrev pub advance : Half S → List ℕ → Split × S
  advance h payload =
      let (decoder, decoded) = decode h.decoder payload in
      (split_lines (h.partial ++ decoded), decoder)

  unfoldable pub push_frame : Frame → Assembler S → List Line × Assembler S
  push_frame fr a =
      let (s, decoder) = advance (half fr.stream a) fr.payload in
      (
        map (λ t. record { stream = fr.stream; text = strip_cr t }) s.parts,
        with_half fr.stream (record { partial = s.last; decoder = decoder }) a,
      )

  unfoldable pub push_frames : List Frame → Assembler S → List Line × Assembler S
  unfolding push_frame
  push_frames [] a = ([], a)
  push_frames (fr ∷ frames) a =
      let (lines, a') = push_frame fr a in
      let (more, a'') = push_frames frames a' in (lines ++ more, a'')

  -- All the text that the frames of one stream decode to, and the decoder after it.
  unfoldable pub text_of : StreamType → List Frame → S → Text × S
  text_of stream [] d = ([], d)
  text_of stream (fr ∷ frames) d =
      if same_stream fr.stream stream
      then (let (d', t) = decode d fr.payload in
          let (ts, d'') = text_of stream frames d' in (t ++ ts, d''))
      else text_of stream frames d
