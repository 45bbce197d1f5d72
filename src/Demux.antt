-- ===== src/Demux.antt =====
-- The log stream demultiplexer (src/docker/demux.ts): frames out of chunks, and lines out of frames.
-- A chunk is a list of bytes. The reader that feeds it is the loop of streamLogs (src/docker/impl.ts), as
-- far as the frames go.
pub mod Frames
pub mod Chunks
pub mod Encode
pub mod Lines
mod Tests
use musdash.Prelude.{
  ℕ, zero, suc, ◌+◌, ◌-◌, ◌*◌, ◌^◌, Bool, true, false, Option, none, some, List, [], ◌∷◌, ◌++◌, map,
  if◌then◌else◌, leb, ltb, ◌==◌, length, take, drop, get_elem?, get_or_else,
}

pub data StreamType : Type 0 where
  stdout stderr : StreamType

pub record Frame : Type 0 where
  pub stream : StreamType
  pub payload : List ℕ

abbrev pub header_len : ℕ
header_len = 8

abbrev pub max_payload : ℕ
max_payload = 16 * 1024 * 1024

-- carry[offset + i]; the callers have checked that the header is there.
abbrev pub byte_at : List ℕ → ℕ → ℕ
byte_at buf i = get_or_else 0 (get_elem? buf i)

-- The big-endian uint32 of bytes 4 to 7.
abbrev pub declared : List ℕ → ℕ
declared buf =
    byte_at buf 4 * 2 ^ 24 + byte_at buf 5 * 2 ^ 16 + byte_at buf 6 * 2 ^ 8 + byte_at buf 7

abbrev pub stream_of : ℕ → StreamType
stream_of b = if b == 2 then stderr else stdout

abbrev pub frame_of : List ℕ → Frame
frame_of buf = record {
  stream = stream_of (byte_at buf 0);
  payload = take (declared buf) (drop header_len buf);
}

-- A DemuxError with the length it names, or the frames and the unconsumed tail.
pub data Parsed : Type 0 where
  corrupt : ℕ → Parsed
  parsed : List Frame → List ℕ → Parsed

abbrev pub with_frame : Frame → Parsed → Parsed
with_frame fr (corrupt n) = corrupt n
with_frame fr (parsed frames rest) = parsed (fr ∷ frames) rest

-- The loop of push. Every round but the last consumes a header, so the length of the buffer is
-- enough fuel.
parse_loop : ℕ → List ℕ → Parsed
parse_loop zero buf = parsed [] buf
parse_loop (suc fuel) buf =
    let rest = with_frame (frame_of buf) (parse_loop fuel (drop (header_len + declared buf) buf)) in
    if ltb (length buf) header_len
    then parsed [] buf
    else if ltb max_payload (declared buf)
    then corrupt (declared buf)
    else if ltb (length buf - header_len) (declared buf)
    then parsed [] buf
    else rest

unfoldable pub parse : List ℕ → Parsed
unfolding parse_loop
parse buf = parse_loop (length buf) buf

-- The demuxer's state is the carry. A throw leaves the whole carry in place and returns no frame.
abbrev pub carry_after : List ℕ → Parsed → List ℕ
carry_after buf (corrupt n) = buf
carry_after buf (parsed frames rest) = rest

-- What push gives its caller: the frames, or the DemuxError with the length it names.
pub data Pushed : Type 0 where
  threw : ℕ → Pushed
  returned : List Frame → Pushed

abbrev pub outcome_of : Parsed → Pushed
outcome_of (corrupt n) = threw n
outcome_of (parsed frames rest) = returned frames

unfoldable pub push : List ℕ → List ℕ → Pushed × List ℕ
push chunk carry =
    (outcome_of (parse (carry ++ chunk)), carry_after (carry ++ chunk) (parse (carry ++ chunk)))

-- What a reader has passed on, the demuxer's carry, and the length that the error names, if it threw.
pub record Reading : Type 0 where
  pub frames : List Frame
  pub carry : List ℕ
  pub error : Option ℕ

-- The frames of a push are passed on before the next chunk is read, and an error ends the read.
abbrev pub read_on : Pushed × List ℕ → (List ℕ → Reading) → Reading
read_on (threw n, carry) go = record { frames = []; carry = carry; error = some n }
read_on (returned fs, carry) go =
    let later = go carry in
    record { frames = fs ++ later.frames; carry = later.carry; error = later.error }

-- The loop of a reader over the chunks of a stream.
unfoldable pub push_all : List (List ℕ) → List ℕ → Reading
unfolding push
push_all [] carry = record { frames = []; carry = carry; error = none }
push_all (chunk ∷ chunks) carry = read_on (push chunk carry) (push_all chunks)
