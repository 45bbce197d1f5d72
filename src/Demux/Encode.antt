-- ===== src/Demux/Encode.antt =====
-- The Engine's framing, as the comment at the head of src/docker/demux.ts gives it, and the round
-- trip through the demuxer.
use musdash.Prelude.{
  ℕ, suc, ◌+◌, ◌/◌, ◌%◌, ◌^◌, ◌≤◌, ◌≡◌, refl, sym, ◌∙◌, ap, ap₂, subst, none, List, [], ◌∷◌, ◌++◌,
  append_assoc, append-nil, arith, length, take, drop, All, length-append,
}
use musdash.Demux.{
  StreamType, stdout, stderr, Frame, header_len, max_payload, declared, frame_of, parsed,
  with_frame, parse, push_all,
}
use musdash.Demux.Frames.{prepend, IsWhole, after_frame, parse_whole, parse_lem}
use musdash.Demux.Chunks.{Agrees, prepend-parsed, joined, push_all-Agrees}

abbrev pub type_byte : StreamType → ℕ
type_byte stdout = 1
type_byte stderr = 2

abbrev pub header : StreamType → ℕ → List ℕ
header stream len =
    type_byte stream
    ∷ 0
    ∷ 0
    ∷ 0
    ∷ (len / 2 ^ 24)
    ∷ (len / 2 ^ 16 % 256)
    ∷ (len / 2 ^ 8 % 256)
    ∷ (len % 256)
    ∷ []

abbrev pub encode : Frame → List ℕ
encode fr = header fr.stream (length fr.payload) ++ fr.payload

abbrev pub encode_all : List Frame → List ℕ
encode_all [] = []
encode_all (fr ∷ frames) = encode fr ++ encode_all frames

abbrev pub IsSendable : Frame → Type 0
IsSendable fr = length fr.payload ≤ max_payload

declared-header : (fr : Frame) (more : List ℕ) → declared (encode fr ++ more) ≡ length fr.payload
declared-header fr more = omega arith

take_exact : (xs ys : List ℕ) → take (length xs) (xs ++ ys) ≡ xs
take_exact [] ys = refl
take_exact (x ∷ xs) ys = ap (λ t. x ∷ t) (take_exact xs ys)

drop_exact : (xs ys : List ℕ) → drop (length xs) (xs ++ ys) ≡ ys
drop_exact [] ys = refl
drop_exact (x ∷ xs) ys = drop_exact xs ys

stream_of-header : (fr : Frame) (more : List ℕ) → (frame_of (encode fr ++ more)).stream ≡ fr.stream
stream_of-header fr more = ground arith

frame_of-encode : (fr : Frame) (more : List ℕ) → frame_of (encode fr ++ more) ≡ fr
frame_of-encode fr more = λ i. record {
  stream = stream_of-header fr more i;
  payload =
      (ap (λ n. take n (fr.payload ++ more)) (declared-header fr more) ∙ take_exact fr.payload more)
        i;
}

encode-IsWhole : (fr : Frame) (more : List ℕ) → IsSendable fr → IsWhole (encode fr ++ more)
encode-IsWhole fr more h = record {
  header = omega (arith, length-append {0} fr.payload more);
  within_cap = rw (declared-header fr more) h;
  present = rw (declared-header fr more) (omega (arith, length-append {0} fr.payload more));
}

eight_more : (n : ℕ) → header_len + n ≡ suc (suc (suc (suc (suc (suc (suc (suc n)))))))
eight_more n = omega arith

after_frame-encode : (fr : Frame) (more : List ℕ) → after_frame (encode fr ++ more) ≡ more
after_frame-encode fr more =
    ap (λ n. drop n (encode fr ++ more)) (eight_more (declared (encode fr ++ more)))
    ∙ ap (λ n. drop n (fr.payload ++ more)) (declared-header fr more)
    ∙ drop_exact fr.payload more

pub parse-encode_all :
    (frames : List Frame) (more : List ℕ)
    → All IsSendable frames
    → parse (encode_all frames ++ more) ≡ prepend frames (parse more)
parse-encode_all [] more h = refl
parse-encode_all (fr ∷ frames) more (small, h) =
    let rest = encode_all frames ++ more in
    ap parse (append_assoc (encode fr) (encode_all frames) more)
    ∙ parse_whole (encode fr ++ rest) (encode-IsWhole fr rest small)
    ∙ ap₂ with_frame (frame_of-encode fr rest)
        (ap parse (after_frame-encode fr rest) ∙ parse-encode_all frames more h)

-- Frames in the Engine's framing, each payload within the cap, come back as they were, however
-- their bytes are cut into chunks, with nothing held back and no error.
pub push_all-encode :
    (frames : List Frame) (chunks : List (List ℕ))
    → All IsSendable frames
    → joined chunks ≡ encode_all frames
    → push_all chunks [] ≡ record { frames = frames; carry = []; error = none }
push_all-encode frames chunks h same =
    subst (λ p. Agrees chunks [] p (push_all chunks [])) (parse_whole_stream)
      (push_all-Agrees chunks [] (parse_lem []))
  where
    parse_whole_stream : parse (joined chunks) ≡ parsed frames []
    parse_whole_stream =
        ap parse (same ∙ sym (append-nil (encode_all frames)))
        ∙ parse-encode_all frames [] h
        ∙ ap (prepend frames) (parse_lem [])
        ∙ prepend-parsed frames [] []
        ∙ ap (λ fs. parsed fs []) (append-nil frames)
