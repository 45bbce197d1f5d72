-- ===== src/Queue/Fields.antt =====
-- The payload of a job (src/queue/index.ts, payloadClauses): the fields that a JSON object holds,
-- and the conditions that a query puts on them. A payload is written by JSON.stringify alone, so
-- the column is modelled as the fields it stands for.
use Prim.Native.Char.{code}
use musdash.Prelude.{
  ℕ, String, Bool, true, false, ◌&&◌, ◌||◌, Option, none, some, List, [], ◌∷◌, if◌then◌else◌, leb,
  ◌==◌, str_eq,
}

-- A JSON scalar, as a writer stores it and as a query asks for it.
pub data Scalar : Type 0 where
  text : String → Scalar
  number : ℕ → Scalar
  flag : Bool → Scalar
  null : Scalar

abbrev pub Payload : Type 0
Payload = List (String × Scalar)

-- A value of SQLite.
pub data SqlValue : Type 0 where
  sql_text : String → SqlValue
  sql_integer : ℕ → SqlValue

-- `typeof value === "boolean" ? Number(value) : value`; a null binds nothing.
abbrev pub to_sql : Scalar → Option SqlValue
to_sql (text s) = some (sql_text s)
to_sql (number n) = some (sql_integer n)
to_sql (flag true) = some (sql_integer 1)
to_sql (flag false) = some (sql_integer 0)
to_sql null = none

-- `json_extract(payload_json, '$.key')`; none is SQL's NULL.
unfoldable pub json_extract : String → Payload → Option SqlValue
json_extract key [] = none
json_extract key ((k, v) ∷ rest) = if str_eq k key then to_sql v else json_extract key rest

abbrev pub sql_eq : SqlValue → SqlValue → Bool
sql_eq (sql_text s) (sql_text t) = str_eq s t
sql_eq (sql_integer m) (sql_integer n) = m == n
sql_eq _ _ = false

-- `x = ?` where the bound value is not NULL: NULL on the left is not a match.
abbrev pub equals_bound : Option SqlValue → SqlValue → Bool
equals_bound none v = false
equals_bound (some w) v = sql_eq w v

-- The condition that one field puts on the extracted value.
abbrev pub clause_holds : Option SqlValue → Option SqlValue → Bool
clause_holds none none = true
clause_holds (some w) none = false
clause_holds found (some v) = equals_bound found v

abbrev pub is_letter : ℕ → Bool
is_letter c = leb b'A' c && leb c b'Z' || leb b'a' c && leb c b'z'

all_letters : String → Bool
all_letters String.[] = true
all_letters (String.◌∷◌ c s) = is_letter (code c) && all_letters s

-- `/^[A-Za-z]+$/.test(key)`
unfoldable pub is_field_name : String → Bool
unfolding all_letters
is_field_name String.[] = false
is_field_name (String.◌∷◌ c s) = is_letter (code c) && all_letters s

-- The error of a query: `invalid payload field "key"`.
pub data Clauses : Type 0 where
  invalid_field : String → Clauses
  clauses : List (String × Option SqlValue) → Clauses

abbrev pub add_clause : String → Option SqlValue → Clauses → Clauses
add_clause key v (invalid_field k) = invalid_field k
add_clause key v (clauses cs) = clauses ((key, v) ∷ cs)

-- The first field whose name is no plain identifier ends the loop.
unfoldable pub payload_clauses : List (String × Scalar) → Clauses
payload_clauses [] = clauses []
payload_clauses ((key, v) ∷ rest) =
    if is_field_name key
    then add_clause key (to_sql v) (payload_clauses rest)
    else invalid_field key

unfoldable pub clauses_hold : List (String × Option SqlValue) → Payload → Bool
clauses_hold [] p = true
clauses_hold ((key, v) ∷ rest) p = clause_holds (json_extract key p) v && clauses_hold rest p
