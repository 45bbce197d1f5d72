-- ===== src/Volumes/Owners.antt =====
-- A volume's name says which stack it belongs to (src/volumes/select.ts).
use musdash.Prelude.{
  ℕ, suc, ◌≡◌, refl, sym, ap, ap₂, ◌∙◌, subst, Bool, true, false, ◌&&◌, Option, none, some, List,
  [], ◌∷◌, ◌++◌, arith, ==_iff, length, All, all, map, inl, inr, Bool-cases, drop, head_option,
}
use mathlib.Core.Bool.{false≢true}
use mathlib.Core.Option.{some-injective, none-ne-some}
use musdash.Prelude.Code.{Text, codes, text_eq, text_eq→eq, before}
use musdash.Prelude.Dict.{get}
use musdash.Volumes.Select.{
  VolumeSummary, KeptVolume, label_resource, label_managed, label_compose_project, label_volume,
  is_id_char, is_resource_id, lower_char, compose_project, label_is, names_key, is_volume_of,
  is_stack_volume_name, kept_volume, cons_some, insert_kept, kept_unsorted, sort_kept, kept_volumes,
  named, removable_kept_volume,
}

and_first : (a b : Bool) → (a && b) ≡ true → a ≡ true
and_first true b h = refl
and_first false b h = h

and_rest : (a b : Bool) → (a && b) ≡ true → b ≡ true
and_rest true b h = h
and_rest false b h = absurd (false≢true h)

first : List ℕ → ℕ
first [] = 0
first (c ∷ s) = c

others : List ℕ → List ℕ
others [] = []
others (c ∷ s) = s

-- Two texts that go on differently after equally long beginnings begin alike.
same_beginning : (xs ys s t : Text) → length xs ≡ length ys → xs ++ s ≡ ys ++ t → xs ≡ ys
unfolding first others
same_beginning [] [] s t h e = refl
same_beginning [] (y ∷ ys) s t h e = absurd (omega (arith, h))
same_beginning (x ∷ xs) [] s t h e = absurd (omega (arith, h))
same_beginning (x ∷ xs) (y ∷ ys) s t h e =
    ap₂ (λ c u. c ∷ u) (ap first e) (same_beginning xs ys s t (omega (arith, h)) (ap others e))

lower_char-injective :
    (c d : ℕ) → is_id_char c ≡ true → is_id_char d ≡ true → lower_char c ≡ lower_char d → c ≡ d
lower_char-injective c d hc hd e = ground arith

lower-injective :
    (a b : Text)
    → all is_id_char a ≡ true
    → all is_id_char b ≡ true
    → map lower_char a ≡ map lower_char b
    → a ≡ b
unfolding first others
lower-injective [] [] ha hb e = refl
lower-injective [] (d ∷ b) ha hb e = absurd (omega (arith, ap length e))
lower-injective (c ∷ a) [] ha hb e = absurd (omega (arith, ap length e))
lower-injective (c ∷ a) (d ∷ b) ha hb e =
    ap₂ (λ x u. x ∷ u)
      (lower_char-injective c d (ground (arith, ha)) (ground (arith, hb)) (ap first e))
      (lower-injective a b (ground (arith, ha)) (ground (arith, hb)) (ap others e))

length-map : (f : ℕ → ℕ) (s : Text) → length (map f s) ≡ length s
length-map f [] = refl
length-map f (c ∷ s) = ap suc (length-map f s)

id_length : (id : Text) → is_resource_id id ≡ true → length id ≡ 26
unfolding is_resource_id
id_length id h = (==_iff (length id) 26).0 (and_first _ _ h)

id_chars : (id : Text) → is_resource_id id ≡ true → all is_id_char id ≡ true
unfolding is_resource_id
id_chars id h = and_rest _ _ h

-- A name that is a stack's project, an underscore and a key is so for that stack only.
project_owns :
    (a b ka kb : Text)
    → is_resource_id a ≡ true
    → is_resource_id b ≡ true
    → compose_project a ++ (95 ∷ ka) ≡ compose_project b ++ (95 ∷ kb)
    → a ≡ b
unfolding compose_project is_resource_id
project_owns a b ka kb ha hb e =
    let whole =
      same_beginning (compose_project a) (compose_project b) (95 ∷ ka) (95 ∷ kb)
        (omega
          (arith, length-map lower_char a, length-map lower_char b, id_length a ha, id_length b hb))
        e in
    lower-injective a b (id_chars a ha) (id_chars b hb) (ap (drop 8) whole)

label_is-eq : (o : Option Text) (v : Text) → label_is o v ≡ true → o ≡ some v
label_is-eq none v h = absurd (false≢true h)
label_is-eq (some w) v h = ap some (text_eq→eq w v h)

names_key-eq :
    (name project : Text) (o : Option Text)
    → names_key name project o ≡ true
    → (key : Text) × (o ≡ some key) × (name ≡ project ++ (95 ∷ key))
names_key-eq name project none h = absurd (false≢true h)
names_key-eq name project (some key) h = (key, refl, text_eq→eq _ _ h)

last_of_six : (a b c d e f : Bool) → (a && (b && (c && (d && (e && f))))) ≡ true → f ≡ true
last_of_six a b c d e f h = and_rest e f (
    and_rest d (e && f) (
      and_rest c (d && (e && f))
        (and_rest b (c && (d && (e && f))) (and_rest a (b && (c && (d && (e && f)))) h))))

-- What the name and the labels of a stack's volume say.
is_volume_of-named :
    (v : VolumeSummary) (id : Text)
    → is_volume_of v id ≡ true
    → (is_resource_id id ≡ true)
      × (key : Text) × (get label_volume v.labels ≡ some key)
      × (v.name ≡ compose_project id ++ (95 ∷ key))
unfolding is_volume_of
is_volume_of-named v id h =
    let named = names_key-eq v.name (compose_project id) (get label_volume v.labels) (
      last_of_six (is_resource_id id) (label_is (get label_resource v.labels) id)
        (label_is (get label_managed v.labels) (codes "true"))
        (label_is (get label_compose_project v.labels) (compose_project id))
        (is_stack_volume_name v.name) _ h) in
    (and_first _ _ h, named.0, named.1, named.2)

-- No two stacks have a volume of the same name: what a delete of one stack may remove is never a
-- volume of another, whatever labels the volumes carry.
pub volume_has_one_owner :
    (v w : VolumeSummary) (a b : Text)
    → is_volume_of v a ≡ true
    → is_volume_of w b ≡ true
    → v.name ≡ w.name
    → a ≡ b
volume_has_one_owner v w a b ha hb e =
    let va = is_volume_of-named v a ha in
    let wb = is_volume_of-named w b hb in project_owns a b va.1 wb.1 va.0 wb.0 (sym va.3 ∙ e ∙ wb.3)

-- A volume that was left behind: its name is that of a volume of a stack that has no row.
abbrev pub IsOrphan : (Text → Bool) → KeptVolume → Type 0
IsOrphan has_row k =
    (has_row k.resource_id ≡ false)
    × (is_resource_id k.resource_id ≡ true)
    × (k.name ≡ compose_project k.resource_id ++ (95 ∷ k.key))

cons_some-All :
    (P : KeptVolume → Type 0) (o : Option KeptVolume) (ks : List KeptVolume)
    → ((k : KeptVolume) → o ≡ some k → P k)
    → All P ks
    → All P (cons_some o ks)
cons_some-All P none ks f h = h
cons_some-All P (some k) ks f h = (f k refl, h)

insert_kept-All :
    (P : KeptVolume → Type 0) (k : KeptVolume) (ks : List KeptVolume)
    → P k
    → All P ks
    → All P (insert_kept k ks)
unfolding insert_kept
insert_kept-All P k [] hk h = (hk, tt)
insert_kept-All P k (j ∷ ks) hk h = elim (Bool-cases (before j.name k.name)) [
  | inl e ↦ rw e (h.0, insert_kept-All P k ks hk h.1)
  | inr e ↦ rw e (hk, h)
]

sort_kept-All : (P : KeptVolume → Type 0) (ks : List KeptVolume) → All P ks → All P (sort_kept ks)
unfolding sort_kept
sort_kept-All P [] h = tt
sort_kept-All P (k ∷ ks) h = insert_kept-All P k (sort_kept ks) h.0 (sort_kept-All P ks h.1)

-- What the loop keeps, given its two labels.
kept_volume-IsOrphan :
    (has_row : Text → Bool) (v : VolumeSummary) (id key : Option Text) (k : KeptVolume)
    → get label_volume v.labels ≡ key
    → kept_volume has_row v id key ≡ some k
    → IsOrphan has_row k × (k.name ≡ v.name)
unfolding kept_volume
kept_volume-IsOrphan has_row v none key k ek e = absurd (none-ne-some _ e)
kept_volume-IsOrphan has_row v (some id) none k ek e = absurd (none-ne-some _ e)
kept_volume-IsOrphan has_row v (some id) (some key) k ek e = elim (Bool-cases (is_volume_of v id)) [
  | inr h ↦ absurd (none-ne-some _ (rw h at e))
  | inl h ↦ elim (Bool-cases (has_row id)) [
    | inl r ↦ absurd (none-ne-some _ (rw (h, r) at e))
    | inr r ↦
        let named = is_volume_of-named v id h in
        subst (λ x. IsOrphan has_row x × (x.name ≡ v.name)) (some-injective _ _ (rw (h, r) at e))
          (
            (
              r,
              named.0,
              named.3
                  ∙ ap (λ x. compose_project id ++ (95 ∷ x))
                      (some-injective _ _ (sym named.2 ∙ ek)),
            ),
            refl,
          )
  ]
]

kept_unsorted-IsOrphan :
    (name : Text) (has_row : Text → Bool) (list : List VolumeSummary)
    → All (λ k. IsOrphan has_row k × (k.name ≡ name)) (kept_unsorted has_row (named name list))
unfolding kept_unsorted named
kept_unsorted-IsOrphan name has_row [] = tt
kept_unsorted-IsOrphan name has_row (v ∷ list) = elim (Bool-cases (text_eq v.name name)) [
  | inr e ↦ rw e (kept_unsorted-IsOrphan name has_row list)
  | inl e ↦ rw e (
      cons_some-All (λ k. IsOrphan has_row k × (k.name ≡ name))
        (kept_volume has_row v (get label_resource v.labels) (get label_volume v.labels))
        (kept_unsorted has_row (named name list))
        (λ k h.
          let orphan =
            kept_volume-IsOrphan has_row v (get label_resource v.labels) (get label_volume v.labels)
              k refl h in
          (orphan.0, orphan.1 ∙ text_eq→eq v.name name e))
        (kept_unsorted-IsOrphan name has_row list))
]

head_option-All :
    (P : KeptVolume → Type 0) (ks : List KeptVolume) (k : KeptVolume)
    → All P ks
    → head_option ks ≡ some k
    → P k
head_option-All P [] k h e = absurd (none-ne-some _ e)
head_option-All P (j ∷ ks) k h e = subst P (some-injective _ _ e) h.0

-- When removableKeptVolume gives a volume to remove, it has exactly the name that was asked for, that
-- name is made of the id of a resource that has no row and the volume's key, and so it is no volume of
-- a stack that exists.
pub removable-IsOrphan :
    (list : List VolumeSummary) (name : Text) (has_row : Text → Bool) (k : KeptVolume)
    → removable_kept_volume list name has_row ≡ some k
    → (k.name ≡ name) × IsOrphan has_row k
unfolding removable_kept_volume kept_volumes
removable-IsOrphan list name has_row k e = elim (Bool-cases (is_stack_volume_name name)) [
  | inr h ↦ absurd (none-ne-some _ (rw h at e))
  | inl h ↦
      let found =
        head_option-All (λ k. IsOrphan has_row k × (k.name ≡ name))
          (sort_kept (kept_unsorted has_row (named name list))) k
          (sort_kept-All (λ k. IsOrphan has_row k × (k.name ≡ name)) _
            (kept_unsorted-IsOrphan name has_row list))
          (rw h at e) in
      (found.1, found.0)
]
