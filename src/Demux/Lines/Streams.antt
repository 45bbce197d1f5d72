-- ===== src/Demux/Lines/Streams.antt =====
-- The lines that an assembler gives for each stream (src/docker/demux.ts, createLineAssembler).
use musdash.Prelude.{ℕ, ◌≡◌, refl, ◌∙◌, false, List, [], ◌∷◌, ◌++◌, map, append_assoc, append-nil}
use musdash.Prelude.Code.{Text}
use musdash.Demux.{StreamType, stdout, stderr, Frame}
use musdash.Demux.Lines.{
  Split, split_lines, strip_cr, Half, Assembler, half, with_half, same_stream, advance, push_frame,
  push_frames, text_of,
}
use musdash.Demux.Lines.Laws.{
  HasNoNewline, split_lines-HasNoNewline, lines_for, lines_for-append, lines_for-map,
  split_lines_plain, lines_for-continue, last-continue,
}

module _ {S : Type 0} (decode : S → List ℕ → S × Text) where
  abbrev pub whole_split : StreamType → List Frame → Assembler S → Split
  whole_split stream frames a =
      split_lines
        ((half stream a).partial ++ (text_of decode stream frames (half stream a).decoder).0)

  abbrev Assembles : StreamType → List Frame → Assembler S → Type 0
  Assembles stream frames a =
      (lines_for stream (push_frames decode frames a).0
        ≡ map strip_cr (whole_split stream frames a).parts)
      × ((half stream (push_frames decode frames a).1).partial ≡ (whole_split stream frames a).last)

  -- The unfinished line of a stream after a frame of that stream.
  abbrev carried : Half S → List ℕ → Text
  carried h payload = (advance decode h payload).0.last

  own_frame :
      (stream : StreamType) (payload : List ℕ) (frames : List Frame) (a : Assembler S)
      → Assembles stream frames (
          with_half stream
            (record {
              partial = carried (half stream a) payload;
              decoder = (decode (half stream a).decoder payload).0;
            })
            a)
      → Assembles stream (record { stream = stream; payload = payload } ∷ frames) a
  unfolding push_frames text_of push_frame
  own_frame stdout payload frames a h =
      let x = a.out.partial ++ (decode a.out.decoder payload).1 in
      let t = (text_of decode stdout frames (decode a.out.decoder payload).0).0 in
      rw (← append_assoc a.out.partial (decode a.out.decoder payload).1 t) (
        lines_for-continue stdout x t
            (map (λ u. record { stream = stdout; text = strip_cr u }) (split_lines x).parts)
            (push_frames decode frames
              (push_frame decode (record { stream = stdout; payload = payload }) a).1).0
            (lines_for-map stdout stdout (split_lines x).parts) h.0,
        h.1 ∙ last-continue x t,
      )
  own_frame stderr payload frames a h =
      let x = a.err.partial ++ (decode a.err.decoder payload).1 in
      let t = (text_of decode stderr frames (decode a.err.decoder payload).0).0 in
      rw (← append_assoc a.err.partial (decode a.err.decoder payload).1 t) (
        lines_for-continue stderr x t
            (map (λ u. record { stream = stderr; text = strip_cr u }) (split_lines x).parts)
            (push_frames decode frames
              (push_frame decode (record { stream = stderr; payload = payload }) a).1).0
            (lines_for-map stderr stderr (split_lines x).parts) h.0,
        h.1 ∙ last-continue x t,
      )

  other_frame :
      (from stream : StreamType) (payload : List ℕ) (frames : List Frame) (a : Assembler S)
      → same_stream from stream ≡ false
      → Assembles stream frames (
          with_half from
            (record {
              partial = carried (half from a) payload;
              decoder = (decode (half from a).decoder payload).0;
            })
            a)
      → Assembles stream (record { stream = from; payload = payload } ∷ frames) a
  unfolding push_frames text_of
  other_frame stdout stdout payload frames a e h = cc
  other_frame stderr stderr payload frames a e h = cc
  other_frame stdout stderr payload frames a e h =
      let x = a.out.partial ++ (decode a.out.decoder payload).1 in
      (
        lines_for-append stderr
              (map (λ t. record { stream = stdout; text = strip_cr t }) (split_lines x).parts) _
            ∙ rw (lines_for-map stdout stderr (split_lines x).parts) h.0,
        h.1,
      )
  other_frame stderr stdout payload frames a e h =
      let x = a.err.partial ++ (decode a.err.decoder payload).1 in
      (
        lines_for-append stdout
              (map (λ t. record { stream = stderr; text = strip_cr t }) (split_lines x).parts) _
            ∙ rw (lines_for-map stderr stdout (split_lines x).parts) h.0,
        h.1,
      )

  carried-HasNoNewline : (h : Half S) (payload : List ℕ) → HasNoNewline (carried h payload)
  carried-HasNoNewline h payload =
      (split_lines-HasNoNewline (h.partial ++ (decode h.decoder payload).1)).1

  by_stream :
      (stream from : StreamType) (payload : List ℕ) (frames : List Frame) (a : Assembler S)
      → HasNoNewline (half stream a).partial
      → ((b : Assembler S) → HasNoNewline (half stream b).partial → Assembles stream frames b)
      → Assembles stream (record { stream = from; payload = payload } ∷ frames) a
  by_stream stdout stdout payload frames a h ih =
      own_frame stdout payload frames a (ih _ (carried-HasNoNewline a.out payload))
  by_stream stderr stderr payload frames a h ih =
      own_frame stderr payload frames a (ih _ (carried-HasNoNewline a.err payload))
  by_stream stdout stderr payload frames a h ih =
      other_frame stderr stdout payload frames a refl (ih _ h)
  by_stream stderr stdout payload frames a h ih =
      other_frame stdout stderr payload frames a refl (ih _ h)

  -- The lines of one stream, over any frames of both streams interleaved, are those of the whole
  -- text that the stream's own frames decode to, each without a final carriage return, and what is
  -- behind the last newline is kept. The line that was unfinished at the start holds no newline.
  pub push_frames-Assembles :
      (stream : StreamType) (frames : List Frame) (a : Assembler S)
      → HasNoNewline (half stream a).partial
      → (lines_for stream (push_frames decode frames a).0
          ≡ map strip_cr (whole_split stream frames a).parts)
        × ((half stream (push_frames decode frames a).1).partial
            ≡ (whole_split stream frames a).last)
  unfolding push_frames text_of
  push_frames-Assembles stream [] a h =
      rw (append-nil (half stream a).partial, split_lines_plain (half stream a).partial h)
        (refl, refl)
  push_frames-Assembles stream (fr ∷ frames) a h =
      by_stream stream fr.stream fr.payload frames a h (push_frames-Assembles stream frames)
