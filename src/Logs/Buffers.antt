-- ===== src/Logs/Buffers.antt =====
-- One ring per resource (src/logs/buffer.ts, from `const buffers` on).
use musdash.Prelude.{
  ℕ, ◌≡◌, refl, String, Option, none, some, List, [], ◌∷◌, arith, if◌then◌else◌, str_eq, eq_iff,
  length, get_or_else, Bool-cases, inl, inr,
}
use musdash.Prelude.Dict.{Dict, get, set, delete, get-set, get-delete}
use musdash.Logs.Ring.{RingBuffer, new_ring, ring_capacity, push, to_array}
use musdash.Logs.Ring.History.{Holds, new_ring-Holds, push-Holds}

module _ (A : Type 0) where
  abbrev pub Buffers : Type 0
  Buffers = Dict (RingBuffer A)

module _ {A : Type 0} where
  -- bufferFor(id).push(line): the ring is made when it is first asked for.
  unfoldable pub append_line : String → A → Buffers A → Buffers A
  append_line id line m = set id (push line (get_or_else (new_ring ring_capacity) (get id m))) m

  abbrev array_of : ℕ → Option (RingBuffer A) → List (Option A)
  array_of limit none = []
  array_of limit (some r) = to_array r limit

  unfoldable pub tail : String → ℕ → Buffers A → List (Option A)
  tail id limit m = array_of limit (get id m)

  unfoldable pub drop_buffer : String → Buffers A → Buffers A
  drop_buffer id m = delete id m

  unfoldable pub buffer_count : Buffers A → ℕ
  buffer_count m = length m

  -- What was logged for each resource since its buffer was made, newest first.
  abbrev pub HoldsFor : Option (RingBuffer A) → List A → Type 0
  HoldsFor none history = history ≡ []
  HoldsFor (some r) history = Holds r history

  abbrev pub Tracks : Buffers A → (String → List A) → Type 0
  Tracks m log = (id : String) → HoldsFor (get id m) (log id)

  abbrev pub logged : String → A → (String → List A) → String → List A
  logged id line log j = if str_eq id j then line ∷ log j else log j

  pushed_first :
      (line : A) (o : Option (RingBuffer A)) (history : List A)
      → HoldsFor o history
      → Holds (push line (get_or_else (new_ring ring_capacity) o)) (line ∷ history)
  pushed_first line none history h =
      rw h
        (push-Holds line (new_ring ring_capacity) [] (new_ring-Holds ring_capacity (omega arith)))
  pushed_first line (some r) history h = push-Holds line r history h

  -- Where the buffers track a log for each resource, a line that is appended goes to the ring
  -- of its own resource, and no other resource's lines change.
  pub append_line-Tracks :
      (id : String) (line : A) (m : Buffers A) (log : String → List A)
      → Tracks m log
      → Tracks (append_line id line m) (logged id line log)
  unfolding append_line
  append_line-Tracks id line m log h j = elim (Bool-cases (str_eq id j)) [
    | inl e ↦
        let same : id ≡ j = (eq_iff id j).0 e in
        rw (get-set, e, ← same) (pushed_first line (get id m) (log id) (h id))
    | inr e ↦ rw (get-set, e) (h j)
  ]

  abbrev pub forgotten : String → (String → List A) → String → List A
  forgotten id log j = if str_eq id j then [] else log j

  -- Where the buffers track a log for each resource, a dropped buffer holds nothing, and no
  -- other resource's lines change.
  pub drop_buffer-Tracks :
      (id : String) (m : Buffers A) (log : String → List A)
      → Tracks m log
      → Tracks (drop_buffer id m) (forgotten id log)
  unfolding drop_buffer
  drop_buffer-Tracks id m log h j = elim (Bool-cases (str_eq id j)) [
    | inl e ↦ rw (get-delete, e) refl
    | inr e ↦ rw (get-delete, e) (h j)
  ]
