-- ===== src/Compose/Json.antt =====
-- A value of JSON.parse, and the narrowing that the Compose pipeline does on it
-- (src/compose/validate.ts: isRecord, present, nonEmpty, parseInteger). A number is an integer or
-- not; an object is the list of its own properties in order, each name once.
use musdash.Prelude.{
  ℕ, ◌+◌, ◌-◌, ◌*◌, ◌%◌, ◌^◌, String, Bool, true, false, ◌&&◌, not, Option, none, some, List, [],
  ◌∷◌, if◌then◌else◌, leb, ltb, ◌==◌, map, length, map_option, ◌≡◌, refl, ap,
}
use musdash.Prelude.Dict.{Dict}
use musdash.Prelude.Code.{Text, codes}

-- pos n is n, negsuc n is -(n + 1).
pub data ℤ : Type 0 where
  pos : ℕ → ℤ
  negsuc : ℕ → ℤ

mutual
  pub data Value : Type 0 where
    null : Value
    flag : Bool → Value
    integer : ℤ → Value
    fraction : Value
    text : String → Value
    array : Items → Value
    object : Fields → Value

  pub data Items : Type 0 where
    nil : Items
    item : Value → Items → Items

  pub data Fields : Type 0 where
    end : Fields
    field : String → Value → Fields → Fields

abbrev pub elements : Items → List Value
elements nil = []
elements (item v vs) = v ∷ elements vs

-- Object.entries
unfoldable pub entries : Fields → Dict Value
entries end = []
entries (field k v fs) = (k, v) ∷ entries fs

-- Object.fromEntries
unfoldable pub from_entries : Dict Value → Fields
from_entries [] = end
from_entries ((k, v) ∷ m) = field k v (from_entries m)

pub entries-from_entries : (m : Dict Value) → entries (from_entries m) ≡ m
unfolding entries from_entries
entries-from_entries [] = refl
entries-from_entries ((k, v) ∷ m) = ap (λ t. (k, v) ∷ t) (entries-from_entries m)

abbrev pub as_record : Value → Option (Dict Value)
as_record (object fs) = some (entries fs)
as_record _ = none

abbrev pub as_array : Value → Option (List Value)
as_array (array vs) = some (elements vs)
as_array _ = none

abbrev pub as_text : Value → Option String
as_text (text s) = some s
as_text _ = none

-- isRecord of a property that may be undefined.
abbrev pub record_in : Option Value → Option (Dict Value)
record_in none = none
record_in (some v) = as_record v

-- `isRecord(x) ? x : {}`
abbrev pub record_or_empty : Option Value → Dict Value
record_or_empty none = []
record_or_empty (some (object fs)) = entries fs
record_or_empty (some _) = []

-- Object.keys
abbrev pub keys {ℓ} : {V : Type ℓ} → Dict V → List String
keys m = map (λ e. e.0) m

-- undefined is none.
abbrev pub present : Option Value → Bool
present none = false
present (some null) = false
present (some _) = true

abbrev is_empty {ℓ} : {A : Type ℓ} → List A → Bool
is_empty [] = true
is_empty (x ∷ xs) = false

abbrev is_empty_text : String → Bool
is_empty_text String.[] = true
is_empty_text _ = false

abbrev pub non_empty : Option Value → Bool
non_empty none = false
non_empty (some null) = false
non_empty (some (array vs)) = not (is_empty (elements vs))
non_empty (some (object fs)) = not (is_empty (entries fs))
non_empty (some (text s)) = not (is_empty_text s)
non_empty (some _) = true

-- Number.MAX_SAFE_INTEGER
abbrev max_safe : ℕ
max_safe = 2 ^ 53 - 1

abbrev is_safe : ℤ → Bool
is_safe (pos n) = leb n max_safe
is_safe (negsuc n) = ltb n max_safe

abbrev is_digit : ℕ → Bool
is_digit c = leb b'0' c && leb c b'9'

-- The number that digits stand for, behind those read already.
digits_from : ℕ → Text → Option ℕ
digits_from n [] = some n
digits_from n (c ∷ s) = if is_digit c then digits_from (n * 10 + (c - b'0')) s else none

-- `\d{1,16}` to the end.
abbrev digits : Text → Option ℕ
digits [] = none
digits (c ∷ s) = if leb (length s) 15 then digits_from 0 (c ∷ s) else none

-- The nearest double of an integer below 2 ^ 54: between 2 ^ 53 and there only even ones are, and a
-- tie goes to the multiple of four.
abbrev to_double : ℕ → ℕ
to_double n =
    if ltb n (2 ^ 53) then n else if n % 4 == 1 then n - 1 else if n % 4 == 3 then n + 1 else n

-- The minus zero of JavaScript compares as zero does.
abbrev negate : ℕ → ℤ
negate n = if n == 0 then pos 0 else negsuc (n - 1)

abbrev number_of : Text → Option ℤ
number_of [] = none
number_of (c ∷ s) =
    if c == b'-'
    then map_option (λ n. negate (to_double n)) (digits s)
    else map_option (λ n. pos (to_double n)) (digits (c ∷ s))

unfoldable pub parse_integer : Value → Option ℤ
unfolding digits_from
parse_integer (integer z) = if is_safe z then some z else none
parse_integer (text s) = number_of (codes s)
parse_integer _ = none

abbrev pub integer_in : Option Value → Option ℤ
integer_in none = none
integer_in (some v) = parse_integer v

-- z <= 0, z < 0, z > 1 and z === w
abbrev pub is_positive : ℤ → Bool
is_positive (pos n) = ltb 0 n
is_positive (negsuc n) = false

abbrev pub is_negative : ℤ → Bool
is_negative (pos n) = false
is_negative (negsuc n) = true

abbrev pub exceeds_one : ℤ → Bool
exceeds_one (pos n) = ltb 1 n
exceeds_one (negsuc n) = false

abbrev pub integer_eq : ℤ → ℤ → Bool
integer_eq (pos m) (pos n) = m == n
integer_eq (negsuc m) (negsuc n) = m == n
integer_eq _ _ = false

-- `x === true` and `x === "…"`
abbrev pub is_true : Option Value → Bool
is_true (some (flag true)) = true
is_true _ = false
