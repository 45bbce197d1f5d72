-- ===== src/Demux/Chunks.antt =====
-- A stream read in chunks yields what it yields in one piece (src/docker/demux.ts).
use musdash.Prelude.{
  ℕ, ◌+◌, ◌-◌, ◌<◌, ◌≡◌, refl, ap, subst, sym, ◌∙◌, none, some, List, [], ◌∷◌, ◌++◌, append_assoc,
  append-nil, arith, if◌then◌else◌, ltb, length, drop, ◌≢◌,
}
use musdash.Demux.{
  Frame, header_len, max_payload, declared, frame_of, Parsed, corrupt, parsed, with_frame, parse,
  threw, returned, Reading, push, carry_after, push_all,
}
use musdash.Demux.Frames.{prepend, parse_append, parse_corrupt, parse_lem, parse_rest}

-- The carry between two chunks: no whole frame, and no header that declares too much.
abbrev pub IsPending : List ℕ → Type 0
IsPending carry = parse carry ≡ parsed [] carry

-- All chunks in one buffer.
abbrev pub joined : List (List ℕ) → List ℕ
joined [] = []
joined (chunk ∷ chunks) = chunk ++ joined chunks

-- A read that threw: at one chunk, after it passed on exactly what the chunks before that one give in
-- one piece. The bytes they left and the chunk are the carry, and they give the error.
pub record Threw (chunks : List (List ℕ)) (carry : List ℕ) (n : ℕ) (r : Reading) : Type 0 where
  pub earlier : List (List ℕ)
  pub last : List ℕ
  pub later : List (List ℕ)
  pub rest : List ℕ
  pub split : chunks ≡ earlier ++ last ∷ later
  pub passed_on : parse (carry ++ joined earlier) ≡ parsed r.frames rest
  pub refused : parse (rest ++ last) ≡ corrupt n
  pub kept : r.carry ≡ rest ++ last
  pub told : r.error ≡ some n

-- A chunked read that agrees with a parse of the whole: all its frames, its carry and no error, or the
-- same error where the whole throws.
abbrev pub Agrees : List (List ℕ) → List ℕ → Parsed → Reading → Type 0
Agrees chunks carry (corrupt n) r = Threw chunks carry n r
Agrees chunks carry (parsed fs rest) r = r ≡ record { frames = fs; carry = rest; error = none }

prepend-corrupt : (fs : List Frame) (n : ℕ) → prepend fs (corrupt n) ≡ corrupt n
prepend-corrupt [] n = refl
prepend-corrupt (f ∷ fs) n = rw (prepend-corrupt fs n)

pub prepend-parsed :
    (fs gs : List Frame) (r : List ℕ) → prepend fs (parsed gs r) ≡ parsed (fs ++ gs) r
prepend-parsed [] gs r = refl
prepend-parsed (f ∷ fs) gs r = rw (prepend-parsed fs gs r)

abbrev with_frames : List Frame → Reading → Reading
with_frames fs r = record { frames = fs ++ r.frames; carry = r.carry; error = r.error }

module _ (chunk carry : List ℕ) (chunks : List (List ℕ)) where
  at_once-Threw :
      (n : ℕ)
      → IsPending carry
      → parse (carry ++ chunk) ≡ corrupt n
      → Threw
          (chunk ∷ chunks)
          carry
          n
          (record { frames = []; carry = carry ++ chunk; error = some n })
  at_once-Threw n pending e = record {
    earlier = [];
    last = chunk;
    later = chunks;
    rest = carry;
    split = refl;
    passed_on = rw (append-nil carry) pending;
    refused = e;
    kept = refl;
    told = refl;
  }

  later-Threw :
      (fs : List Frame) (rest : List ℕ) (n : ℕ) (r : Reading)
      → parse (carry ++ chunk) ≡ parsed fs rest
      → Threw chunks rest n r
      → Threw (chunk ∷ chunks) carry n (with_frames fs r)
  later-Threw fs rest n r e t = record {
    earlier = chunk ∷ t.earlier;
    last = t.last;
    later = t.later;
    rest = t.rest;
    split = ap (λ cs. chunk ∷ cs) t.split;
    passed_on =
        ap parse (sym (append_assoc carry chunk (joined t.earlier)))
        ∙ parse_append (carry ++ chunk) (joined t.earlier) fs rest e
        ∙ ap (prepend fs) t.passed_on
        ∙ prepend-parsed fs r.frames t.rest;
    refused = t.refused;
    kept = t.kept;
    told = t.told;
  }

  later-Agrees :
      (fs : List Frame) (rest : List ℕ) (p : Parsed) (r : Reading)
      → parse (carry ++ chunk) ≡ parsed fs rest
      → Agrees chunks rest p r
      → Agrees (chunk ∷ chunks) carry (prepend fs p) (with_frames fs r)
  later-Agrees fs rest (corrupt n) r e h = rw (prepend-corrupt fs n) (later-Threw fs rest n r e h)
  later-Agrees fs rest (parsed gs left) r e h = rw (prepend-parsed fs gs left, h) refl

  first_chunk :
      (p : Parsed)
      → IsPending carry
      → parse (carry ++ chunk) ≡ p
      → ((rest : List ℕ)
          → IsPending rest
          → Agrees chunks rest (parse (rest ++ joined chunks)) (push_all chunks rest))
      → Agrees
          (chunk ∷ chunks)
          carry
          (parse ((carry ++ chunk) ++ joined chunks))
          (push_all (chunk ∷ chunks) carry)
  unfolding push_all
  first_chunk (corrupt n) pending e ih =
      rw (parse_corrupt (carry ++ chunk) (joined chunks) n e, e) (at_once-Threw n pending e)
  first_chunk (parsed fs rest) pending e ih =
      rw (parse_append (carry ++ chunk) (joined chunks) fs rest e, e)
        (later-Agrees fs rest (parse (rest ++ joined chunks)) (push_all chunks rest) e
          (ih rest (parse_rest (carry ++ chunk) fs rest e)))

-- Wherever a stream is cut into chunks, when the bytes in one piece give no error, the reader passes on
-- the frames they give, is left with the same carry and does not throw. When they give an error, the
-- reader throws the same error at one of the chunks: it has passed on exactly the frames that the
-- chunks before it give in one piece, and its carry is what they leave with that chunk. The carry it
-- starts from is one that push leaves: it holds no whole frame and no header that declares too much.
pub push_all-Agrees :
    (chunks : List (List ℕ)) (carry : List ℕ)
    → IsPending carry
    → Agrees chunks carry (parse (carry ++ joined chunks)) (push_all chunks carry)
unfolding push_all
push_all-Agrees [] carry h = rw (append-nil carry, h) refl
push_all-Agrees (chunk ∷ chunks) carry h =
    subst (λ buf. Agrees (chunk ∷ chunks) carry (parse buf) (push_all (chunk ∷ chunks) carry))
      (append_assoc carry chunk (joined chunks))
      (first_chunk chunk carry chunks (parse (carry ++ chunk)) h refl (push_all-Agrees chunks))

threw-ne-returned : (n : ℕ) (fs : List Frame) → threw n ≢ returned fs
threw-ne-returned n fs e = cc

pending_bound_of :
    (buf : List ℕ) (p : Parsed)
    → (if ltb (length buf) header_len
        then parsed [] buf
        else if ltb max_payload (declared buf)
        then corrupt (declared buf)
        else if ltb (length buf - header_len) (declared buf)
        then parsed [] buf
        else with_frame (frame_of buf) p)
      ≡ parsed [] buf
    → length buf < header_len + max_payload
pending_bound_of buf (corrupt n) h = ground arith
pending_bound_of buf (parsed fs r) h = ground arith

-- After a push that returns frames, fewer bytes are held back than one header and the largest
-- payload.
pub push-pending_bound :
    (chunk carry : List ℕ) (frames : List Frame)
    → (push chunk carry).0 ≡ returned frames
    → length (push chunk carry).1 < header_len + max_payload
unfolding push
push-pending_bound chunk carry frames h = held (parse (carry ++ chunk)) refl
  where
    held :
        (p : Parsed)
        → parse (carry ++ chunk) ≡ p
        → length (carry_after (carry ++ chunk) p) < header_len + max_payload
    held (corrupt n) e = absurd (threw-ne-returned n frames (rw e at h))
    held (parsed fs rest) e =
        let pending = parse_rest (carry ++ chunk) fs rest e in
        pending_bound_of rest (parse (drop (header_len + declared rest) rest))
          (sym (parse_lem rest) ∙ pending)
