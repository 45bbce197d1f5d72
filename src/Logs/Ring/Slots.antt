-- ===== src/Logs/Ring/Slots.antt =====
-- Slots and indices of the ring buffer (src/logs/buffer.ts).
use native.Mathlib.Nat.{
  mod-add-mod, mod-eq_of_lt, mod-lt, mod-eq-sub-mod, add-mul-mod_self_right, div-add-mod',
}
use native.Mathlib.Decide.{dec_lt}
use musdash.Prelude.{
  ℕ, zero, suc, ◌+◌, ◌-◌, ◌*◌, ◌/◌, ◌%◌, ◌≤◌, ◌<◌, ◌≡◌, ◌≢◌, refl, sym, ◌∙◌, ap, Option, List, [],
  ◌∷◌, arith, length, set,
}
use musdash.Logs.Ring.{slot}

module _ {ℓ} {A : Type ℓ} where
  pub slot-set_self :
      (xs : List (Option A)) (i : ℕ) (v : Option A) → i < length xs → slot (set xs i v) i ≡ v
  slot-set_self [] i v h = elim h [ ]
  slot-set_self (x ∷ xs) zero v h = refl
  slot-set_self (x ∷ xs) (suc i) v h = slot-set_self xs i v (omega arith)

  pub slot-set_ne :
      (xs : List (Option A)) (i j : ℕ) (v : Option A) → i ≢ j → slot (set xs i v) j ≡ slot xs j
  slot-set_ne [] i j v h = refl
  slot-set_ne (x ∷ xs) zero zero v h = absurd (h refl)
  slot-set_ne (x ∷ xs) zero (suc j) v h = refl
  slot-set_ne (x ∷ xs) (suc i) zero v h = refl
  slot-set_ne (x ∷ xs) (suc i) (suc j) v h = slot-set_ne xs i j v (λ e. h (ap suc e))

-- Two indices closer than the capacity stand in different slots.
pub mod-ne_of_close : (a d c : ℕ) → 0 < d → d < c → a % c ≢ (a + d) % c
mod-ne_of_close a d c h k e =
    let r = a % c in
    let below : r < c = mod-lt a (omega arith) in
    let same : r ≡ (r + d) % c = e ∙ sym (mod-add-mod a c d) in
    elim (dec_lt (r + d) c) [
      | yes fits ↦ absurd (omega (arith, mod-eq_of_lt fits))
      | no wraps ↦
          let over : c ≤ r + d = omega arith in
          let less : r + d - c < c = omega arith in
          absurd (omega (arith, mod-eq-sub-mod over, mod-eq_of_lt less))
    ]

-- The index that toArray reads for round i is that of the line pushed (n - i) pushes ago.
pub start_index :
    (pushed n i c : ℕ)
    → 0 < c
    → n ≤ c
    → n ≤ pushed
    → ((pushed % c + c * 2 - n) % c + i) % c ≡ (pushed - n + i) % c
start_index pushed n i c h k l =
    let x = pushed % c + c * 2 - n + i in
    let q = pushed / c in
    let moved : x + q * c ≡ pushed - n + i + 2 * c = omega (arith, div-add-mod' pushed c) in
    mod-add-mod (pushed % c + c * 2 - n) c i
    ∙ sym (add-mul-mod_self_right x q c)
    ∙ ap (λ y. y % c) moved
    ∙ add-mul-mod_self_right (pushed - n + i) 2 c
