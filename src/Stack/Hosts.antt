-- ===== src/Stack/Hosts.antt =====
-- The order in which a stack's routes are written (src/jobs/compose-plan.ts, unionHosts and
-- gainFirstHosts).
use musdash.Prelude.{
  ◌≡◌, refl, String, Bool, true, ◌&&◌, ◌||◌, not, List, [], ◌∷◌, ◌++◌, arith, if◌then◌else◌, str_eq,
  eq_iff, any, All, get_or_else, Bool-cases, inl, inr,
}
use musdash.Prelude.Dict.{Dict, get, set, get-set, includes, includes-append}

-- The loop of unionHosts.
unfoldable pub union_hosts : List String → List String → List String
union_hosts out [] = out
union_hosts out (h ∷ rest) = union_hosts (if includes h out then out else out ++ h ∷ []) rest

abbrev pub held_elsewhere : String → String → Dict (List String) → Bool
held_elsewhere h id current = any (λ e. not (str_eq e.0 id) && includes h e.1) current

abbrev pub gains_held_host : Dict (List String) → String → List String → List String → Bool
gains_held_host current id mine hosts =
    any (λ h. not (includes h mine) && held_elsewhere h id current) hosts

abbrev pub hosts_now : Dict (List String) → String → List String
hosts_now current id = get_or_else [] (get id current)

abbrev pub gain :
    Dict (List String) → String → List String → Dict (List String) → Dict (List String)
gain current id hosts out =
    if gains_held_host current id (hosts_now current id) hosts
    then set id (union_hosts hosts (hosts_now current id)) out
    else out

-- The loop of gainFirstHosts.
gain_loop : Dict (List String) → Dict (List String) → Dict (List String) → Dict (List String)
gain_loop current [] out = out
gain_loop current ((id, hosts) ∷ rest) out = gain_loop current rest (gain current id hosts out)

unfoldable pub gain_first_hosts : Dict (List String) → Dict (List String) → Dict (List String)
unfolding gain_loop
gain_first_hosts current final = gain_loop current final []

-- A union holds the hosts of both lists, and no others.
pub includes-union_hosts :
    (h : String) (first rest : List String)
    → includes h (union_hosts first rest) ≡ (includes h first || includes h rest)
unfolding union_hosts
includes-union_hosts h first [] = ground arith
includes-union_hosts h first (x ∷ rest) = elim (Bool-cases (includes x first)) [
  | inl there ↦
      rw (there, includes-union_hosts h first rest)
        (elim (Bool-cases (str_eq x h)) [
          | inl same ↦ let e : includes h first ≡ true = rw ((eq_iff x h).0 same) at there in rw (e)
          | inr other ↦ rw other
        ])
  | inr absent ↦
      rw (absent, includes-union_hosts h (first ++ x ∷ []) rest, includes-append h first (x ∷ []))
        (ground arith)
]

-- A union that adds nothing is the list itself, in its order.
pub union_hosts_same :
    (first rest : List String)
    → All (λ h. includes h first ≡ true) rest
    → union_hosts first rest ≡ first
unfolding union_hosts
union_hosts_same first [] h = refl
union_hosts_same first (x ∷ rest) (there, h) = rw there (union_hosts_same first rest h)

-- The routes after the first pass of src/jobs/routes.ts (syncResource), where each of its writes
-- succeeds: those that it writes, over those that are there.
unfoldable pub after_first_pass : Dict (List String) → Dict (List String) → String → List String
after_first_pass current final id =
    get_or_else (hosts_now current id) (get id (gain_first_hosts current final))

abbrev KeepsHosts : Dict (List String) → Dict (List String) → Type 0
KeepsHosts current out =
    (id h : String)
    → includes h (hosts_now current id) ≡ true
    → includes h (get_or_else (hosts_now current id) (get id out)) ≡ true

gain-KeepsHosts :
    (current : Dict (List String)) (id : String) (hosts : List String) (out : Dict (List String))
    → KeepsHosts current out
    → KeepsHosts current (gain current id hosts out)
gain-KeepsHosts current id hosts out k j h held =
    elim (Bool-cases (gains_held_host current id (hosts_now current id) hosts)) [
      | inl gains ↦ elim (Bool-cases (str_eq id j)) [
        | inl same ↦
            let mine : includes h (hosts_now current id) ≡ true = rw ((eq_iff id j).0 same) held in
            rw (gains, get-set, same, includes-union_hosts h hosts (hosts_now current id), mine)
              (ground arith)
        | inr other ↦ rw (gains, get-set, other) (k j h held)
      ]
      | inr not_gaining ↦ rw not_gaining (k j h held)
    ]

gain_loop-KeepsHosts :
    (current final out : Dict (List String))
    → KeepsHosts current out
    → KeepsHosts current (gain_loop current final out)
unfolding gain_loop
gain_loop-KeepsHosts current [] out k = k
gain_loop-KeepsHosts current ((id, hosts) ∷ rest) out k =
    gain_loop-KeepsHosts current rest (gain current id hosts out)
      (gain-KeepsHosts current id hosts out k)

-- No host leaves a route in the first pass of writes: what a route answers for now, it answers
-- for after it.
pub first_pass_keeps :
    (current final : Dict (List String)) (id h : String)
    → includes h (hosts_now current id) ≡ true
    → includes h (after_first_pass current final id) ≡ true
unfolding after_first_pass gain_first_hosts get
first_pass_keeps current final id h held =
    gain_loop-KeepsHosts current final [] (λ j g e. e) id h held
