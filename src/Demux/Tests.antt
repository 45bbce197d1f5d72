-- ===== src/Demux/Tests.antt =====
-- Tests of the demultiplexer and of the line assembler (src/docker/demux.ts): a short stream.
use musdash.Prelude.{ℕ, ◌≡◌, refl, List, [], ◌∷◌, ◌*◌, ◌^◌, map, none, some, arith}
use musdash.Prelude.Code.{Text}
use musdash.Demux.{StreamType, stdout, stderr, Frame, parse, parse_loop, push, push_all}
use musdash.Demux.Frames.{parse_lem}
use musdash.Demux.Chunks.{joined, Agrees, push_all-Agrees}
use musdash.Demux.Encode.{push_all-encode}
use musdash.Demux.Lines.{Assembler, strip_cr, push_frames, half}
use musdash.Demux.Lines.Laws.{lines_for}
use musdash.Demux.Lines.Streams.{whole_split, push_frames-Assembles}

abbrev frame : StreamType → List ℕ → Frame
frame stream payload = record { stream = stream; payload = payload }

-- A frame, and in a later chunk a header that declares 255 * 2^24 bytes.
abbrev broken : List (List ℕ)
broken = (1 ∷ 0 ∷ 0 ∷ 0 ∷ 0 ∷ 0 ∷ 0 ∷ 1 ∷ 104 ∷ 2 ∷ []) ∷ (0 ∷ 0 ∷ 0 ∷ 255 ∷ 0 ∷ 0 ∷ 0 ∷ []) ∷ []

broken_read : push_all broken [] ≡ record {
  frames = frame stdout (104 ∷ []) ∷ [];
  carry = 2 ∷ 0 ∷ 0 ∷ 0 ∷ 255 ∷ 0 ∷ 0 ∷ 0 ∷ [];
  error = some (255 * 2 ^ 24);
}
unfolding push_all push parse parse_loop
broken_read = refl

push_all-Agrees_example : Agrees broken [] (parse (joined broken)) (push_all broken [])
push_all-Agrees_example = push_all-Agrees broken [] (parse_lem [])

abbrev whole_chunks : List (List ℕ)
whole_chunks = (1 ∷ 0 ∷ 0 ∷ 0 ∷ 0 ∷ 0 ∷ []) ∷ (0 ∷ 2 ∷ 104 ∷ 105 ∷ []) ∷ []

push_all-encode_example :
    push_all whole_chunks []
    ≡ record { frames = frame stdout (104 ∷ 105 ∷ []) ∷ []; carry = []; error = none }
push_all-encode_example =
    push_all-encode (frame stdout (104 ∷ 105 ∷ []) ∷ []) whole_chunks (omega arith, tt) refl

-- A decoder that takes each byte for a character.
abbrev decode_bytes : ℕ → List ℕ → ℕ × Text
decode_bytes d payload = (d, payload)

abbrev empty : Assembler ℕ
empty = record {
  out = record { partial = []; decoder = 0 };
  err = record { partial = []; decoder = 0 };
}

abbrev frames : List Frame
frames =
    frame stdout (b'h' ∷ b'i' ∷ [])
    ∷ frame stderr (b'e' ∷ b'\n' ∷ [])
    ∷ frame stdout (b'\r' ∷ b'\n' ∷ b'x' ∷ [])
    ∷ []

push_frames-Assembles_example :
    (lines_for stdout (push_frames decode_bytes frames empty).0
      ≡ map strip_cr (whole_split decode_bytes stdout frames empty).parts)
    × ((half stdout (push_frames decode_bytes frames empty).1).partial
        ≡ (whole_split decode_bytes stdout frames empty).last)
push_frames-Assembles_example = push_frames-Assembles decode_bytes stdout frames empty tt
