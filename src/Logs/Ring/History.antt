-- ===== src/Logs/Ring/History.antt =====
-- A ring buffer holds the latest lines of what was pushed (src/logs/buffer.ts).
use native.Mathlib.Nat.{mod-add-mod, mod-lt, zero-mod, add-zero}
use musdash.Prelude.{
  ℕ, zero, suc, ◌+◌, ◌-◌, ◌*◌, ◌%◌, ◌<◌, ◌≡◌, refl, sym, ◌∙◌, ap, min, Option, none, some, List, [],
  ◌∷◌, arith, length, get_elem?, set, length-set, length-replicate,
}
use musdash.Logs.Ring.{
  RingBuffer, new_ring, push, slot, start_of, collect, to_array, all_none, clear,
}
use musdash.Logs.Ring.Slots.{slot-set_self, slot-set_ne, mod-ne_of_close, start_index}

shift : (i j : ℕ) → i + 1 + j ≡ i + suc j
shift i j = omega arith

length_suc : (n : ℕ) → n + 1 ≡ suc n
length_suc n = omega arith

module _ {ℓ} {A : Type ℓ} where
  -- `r` after the pushes of `history`, newest first, from an empty ring.
  pub record Holds (r : RingBuffer A) (history : List A) : Type ℓ where
    pub room : 0 < r.capacity
    pub slots : length r.items ≡ r.capacity
    pub next_at : r.next ≡ length history % r.capacity
    pub counted : r.count ≡ min r.capacity (length history)
    pub latest :
        (k : ℕ)
        → k < r.capacity
        → k < length history
        → slot r.items ((length history - 1 - k) % r.capacity) ≡ get_elem? history k

  pub new_ring-Holds : (capacity : ℕ) → 0 < capacity → Holds (new_ring capacity) []
  unfolding new_ring
  new_ring-Holds capacity h = record {
    room = h;
    slots = length-replicate capacity none;
    next_at = sym (zero-mod capacity);
    counted = omega arith;
    latest = λ k a b. absurd (omega arith);
  }

  latest_push :
      (line : A) (r : RingBuffer A) (history : List A)
      → Holds r history
      → (k : ℕ) → k < r.capacity
      → k < suc (length history)
      → slot (set r.items r.next (some line)) ((suc (length history) - 1 - k) % r.capacity)
        ≡ get_elem? (line ∷ history) k
  latest_push line r history h zero near old =
      let index : suc (length history) - 1 - 0 ≡ length history = omega arith in
      let inside : length history % r.capacity < length r.items =
        rw h.slots (mod-lt (length history) h.room) in
      rw (index, h.next_at) (slot-set_self r.items (length history % r.capacity) (some line) inside)
  latest_push line r history h (suc k) near old =
      let len = length history in
      let index : suc len - 1 - suc k ≡ len - 1 - k = omega arith in
      let apart = mod-ne_of_close (len - 1 - k) (k + 1) r.capacity (omega arith) (omega arith) in
      let back : len - 1 - k + (k + 1) ≡ len = omega arith in
      rw index (
        slot-set_ne r.items r.next ((len - 1 - k) % r.capacity) (some line)
          (λ e. apart (sym e ∙ h.next_at ∙ ap (λ n. n % r.capacity) (sym back)))
        ∙ h.latest k (omega arith) (omega arith))

  -- A line pushed onto a ring that holds a history gives a ring that holds the history with the
  -- line in front: the slots keep their number, and the newest lines are where the reader looks
  -- for them.
  pub push-Holds :
      (line : A) (r : RingBuffer A) (history : List A)
      → Holds r history
      → Holds (push line r) (line ∷ history)
  unfolding push
  push-Holds line r history h = record {
    room = h.room;
    slots = length-set r.items r.next (some line) ∙ h.slots;
    next_at = rw h.next_at (
        mod-add-mod (length history) r.capacity 1
        ∙ ap (λ n. n % r.capacity) (length_suc (length history)));
    counted = ground (arith, h.counted);
    latest = latest_push line r history h;
  }

  length-collect : (r : RingBuffer A) (start i left : ℕ) → length (collect r start i left) ≡ left
  unfolding collect
  length-collect r start i zero = refl
  length-collect r start i (suc left) = ap suc (length-collect r start (i + 1) left)

  get_elem?-collect :
      (r : RingBuffer A) (start i left j : ℕ)
      → j < left
      → get_elem? (collect r start i left) j ≡ some (slot r.items ((start + (i + j)) % r.capacity))
  unfolding collect
  get_elem?-collect r start i zero j h = elim h [ ]
  get_elem?-collect r start i (suc left) zero h = rw add-zero
  get_elem?-collect r start i (suc left) (suc j) h =
      get_elem?-collect r start (i + 1) left j (omega arith)
      ∙ ap (λ n. some (slot r.items ((start + n) % r.capacity))) (shift i j)

  -- How many lines toArray gives.
  abbrev pub shown : ℕ → RingBuffer A → List A → ℕ
  shown limit r history = min limit (min r.capacity (length history))

  -- For a ring that holds a history, toArray gives the latest lines, as many as there are up to
  -- the capacity and the limit, oldest first: its i-th entry of n is the line pushed n - 1 - i
  -- lines before the last.
  pub to_array-Holds :
      (limit : ℕ) (r : RingBuffer A) (history : List A)
      → Holds r history
      → (length (to_array r limit) ≡ shown limit r history)
        × ((i : ℕ)
            → i < shown limit r history
            → get_elem? (to_array r limit) i
              ≡ some (get_elem? history (shown limit r history - 1 - i)))
  unfolding to_array
  to_array-Holds limit r history h = (
    rw h.counted (length-collect r (start_of r n) 0 n),
    λ i le. rw h.counted (get_elem?-collect r (start_of r n) 0 n i le ∙ ap some (nth i le)),
  )
    where
      n : ℕ
      n = shown limit r history

      nth :
          (i : ℕ)
          → i < n
          → slot r.items ((start_of r n + (0 + i)) % r.capacity) ≡ get_elem? history (n - 1 - i)
      nth i le =
          let len = length history in
          let index : len - n + (0 + i) ≡ len - 1 - (n - 1 - i) = omega arith in
          ap (λ m. slot r.items (((m + r.capacity * 2 - n) % r.capacity + (0 + i)) % r.capacity))
            h.next_at
          ∙ ap (slot r.items)
              (start_index len n (0 + i) r.capacity h.room (omega arith) (omega arith))
          ∙ ap (λ m. slot r.items (m % r.capacity)) index
          ∙ h.latest (n - 1 - i) (omega arith) (omega arith)

  length-all_none : (xs : List (Option A)) → length (all_none xs) ≡ length xs
  length-all_none [] = refl
  length-all_none (x ∷ xs) = ap suc (length-all_none xs)

  -- A ring that holds any history holds none once it is cleared.
  pub clear-Holds : (r : RingBuffer A) (history : List A) → Holds r history → Holds (clear r) []
  unfolding clear
  clear-Holds r history h = record {
    room = h.room;
    slots = length-all_none r.items ∙ h.slots;
    next_at = sym (zero-mod r.capacity);
    counted = omega arith;
    latest = λ k a b. absurd (omega arith);
  }
