-- ===== src/Logs/Ring.antt =====
-- The ring buffer of src/logs/buffer.ts, over any type of lines. `number` arithmetic stays far below
-- 2^53, so it is exact; the array has `capacity` slots, of which `undefined` is none.
pub mod Slots
pub mod History
use musdash.Prelude.{
  ℕ, zero, suc, ◌+◌, ◌-◌, ◌*◌, ◌%◌, min, Option, none, some, List, [], ◌∷◌, if◌then◌else◌, ltb,
  get_elem?, set, replicate,
}

abbrev pub ring_capacity : ℕ
ring_capacity = 1000

pub record RingBuffer {ℓ} (A : Type ℓ) : Type ℓ where
  pub items : List (Option A)
  pub next : ℕ
  pub count : ℕ
  pub capacity : ℕ

module _ {ℓ} {A : Type ℓ} where
  unfoldable pub new_ring : ℕ → RingBuffer A
  new_ring capacity = record {
    items = replicate capacity none;
    next = 0;
    count = 0;
    capacity = capacity;
  }

  unfoldable pub push : A → RingBuffer A → RingBuffer A
  push line r = record r {
    items = set r.items r.next (some line);
    next = (r.next + 1) % r.capacity;
    count = if ltb r.count r.capacity then r.count + 1 else r.count;
  }

  -- Reading a slot: an index out of range, or `undefined`, is none.
  abbrev pub slot : List (Option A) → ℕ → Option A
  slot [] i = none
  slot (x ∷ xs) zero = x
  slot (x ∷ xs) (suc i) = slot xs i

  -- The loop of toArray, from i on, with `left` rounds to go.
  unfoldable pub collect : RingBuffer A → ℕ → ℕ → ℕ → List (Option A)
  collect r start i zero = []
  collect r start i (suc left) =
      slot r.items ((start + i) % r.capacity) ∷ collect r start (i + 1) left

  -- this.next - n + this.capacity * 2; n is at most the capacity, so nothing is cut off at 0.
  abbrev pub start_of : RingBuffer A → ℕ → ℕ
  start_of r n = (r.next + r.capacity * 2 - n) % r.capacity

  unfoldable pub to_array : RingBuffer A → ℕ → List (Option A)
  unfolding collect
  to_array r limit = let n = min limit r.count in collect r (start_of r n) 0 n

  unfoldable pub size : RingBuffer A → ℕ
  size r = r.count

  abbrev all_none : List (Option A) → List (Option A)
  all_none [] = []
  all_none (x ∷ xs) = none ∷ all_none xs

  unfoldable pub clear : RingBuffer A → RingBuffer A
  clear r = record r { items = all_none r.items; next = 0; count = 0 }
