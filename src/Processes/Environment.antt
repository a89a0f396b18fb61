-- ===== src/Processes/Environment.antt =====
-- internal/process/runner.go: `mergeEnvironment`, the environment of a child process. An entry is
-- `key=value`; the map of overrides is an association list, in any order.
use mathlib.Core.Path.{subst}
use lazywrap.Base.Keys.{IsDistinct}
use lazywrap.Base.{
  ℕ, ◌≡◌, refl, sym, ap, IsIn, inl, inr, arith, Bytes, bytes_eq, eq_bytes, eq_bytes_iff, cut,
  has_byte, lookup, is_some, true, false, List, [], ◌∷◌, ◌++◌, Option, none, some, ◌==◌,
  if◌then◌else◌, Bool-cases, All,
}

abbrev equals : ℕ
equals = 61

-- `key, _, _ := strings.Cut(entry, "=")`
unfoldable pub entry_key : Bytes → Bytes
unfolding cut
entry_key entry = elim (cut equals entry) [ none ↦ entry | some p ↦ p.0 ]

-- The loop over the parent's entries.
unfoldable pub keep_parent : List (Bytes × Bytes) → List Bytes → List Bytes
unfolding entry_key lookup
keep_parent overrides [] = []
keep_parent overrides (entry ∷ parent) =
    let rest = keep_parent overrides parent in
    if is_some (lookup (entry_key entry) overrides) then rest else entry ∷ rest

-- The loop over the overrides.
unfoldable pub print_overrides : List (Bytes × Bytes) → List Bytes
print_overrides [] = []
print_overrides ((key, value) ∷ overrides) = (key ++ equals ∷ value) ∷ print_overrides overrides

-- `mergeEnvironment`
unfoldable pub merge_environment : List Bytes → List (Bytes × Bytes) → List Bytes
unfolding keep_parent print_overrides
merge_environment parent overrides = keep_parent overrides parent ++ print_overrides overrides

-- The value of a variable: that of the last entry with its key, as `os/exec` documents for `Cmd.Env`.
pub entry_value : Bytes → Bytes
unfolding cut
entry_value entry = elim (cut equals entry) [ none ↦ [] | some p ↦ p.1 ]

-- The first of two options that is there.
pub or_else : Option Bytes → Option Bytes → Option Bytes
or_else none o = o
or_else (some v) o = some v

unfoldable pub value_in : Bytes → List Bytes → Option Bytes
unfolding entry_key entry_value eq_bytes or_else
value_in k [] = none
value_in k (entry ∷ env) =
    or_else (value_in k env)
      (if eq_bytes (entry_key entry) k then some (entry_value entry) else none)

-- A key as `env` files and the shell have them.
abbrev pub IsKey : Bytes × Bytes → Type 0
IsKey (key, value) = has_byte equals key ≡ false

cut-key :
    (key value : Bytes)
    → has_byte equals key ≡ false
    → cut equals (key ++ equals ∷ value) ≡ some (key, value)
unfolding cut has_byte
cut-key [] value h = refl
cut-key (c ∷ key) value h =
    let (e, e') : ((c == equals) ≡ false) × (has_byte equals key ≡ false) = ground (arith, h) in
    rw (e, cut-key key value e') refl

entry_key-key :
    (key value : Bytes) → has_byte equals key ≡ false → entry_key (key ++ equals ∷ value) ≡ key
unfolding entry_key
entry_key-key key value h = rw (entry_key, cut-key key value h) refl

entry_value-key :
    (key value : Bytes) → has_byte equals key ≡ false → entry_value (key ++ equals ∷ value) ≡ value
unfolding entry_value
entry_value-key key value h = rw (entry_value, cut-key key value h) refl

or_else-none : (o : Option Bytes) → or_else o none ≡ o
unfolding or_else
or_else-none none = refl
or_else-none (some v) = refl

or_else_assoc : (o p q : Option Bytes) → or_else (or_else o p) q ≡ or_else o (or_else p q)
unfolding or_else
or_else_assoc none p q = refl
or_else_assoc (some v) p q = refl

override_last : (o p : Option Bytes) → or_else o (if is_some o then none else p) ≡ or_else o p
unfolding or_else
override_last none p = refl
override_last (some v) p = refl

value_in-append :
    (k : Bytes) (env more : List Bytes)
    → value_in k (env ++ more) ≡ or_else (value_in k more) (value_in k env)
unfolding value_in
value_in-append k [] more = sym (or_else-none (value_in k more))
value_in-append k (entry ∷ env) more =
    let own = if eq_bytes (entry_key entry) k then some (entry_value entry) else none in
    rw (value_in-append k env more) (or_else_assoc (value_in k more) (value_in k env) own)

value_in-keep_parent :
    (k : Bytes) (overrides : List (Bytes × Bytes)) (parent : List Bytes)
    → value_in k (keep_parent overrides parent)
      ≡ (if is_some (lookup k overrides) then none else value_in k parent)
unfolding value_in keep_parent or_else
value_in-keep_parent k overrides [] = elim (Bool-cases (is_some (lookup k overrides))) [
  | inl e ↦ rw e refl
  | inr e ↦ rw e refl
]
value_in-keep_parent k overrides (entry ∷ parent) =
    let rest = value_in-keep_parent k overrides parent in
    elim (Bool-cases (eq_bytes (entry_key entry) k)) [
      | inl e ↦
          let same = (eq_bytes_iff (entry_key entry) k).0 e in
          elim (Bool-cases (is_some (lookup k overrides))) [
            | inl f ↦
                (let g : is_some (lookup (entry_key entry) overrides) ≡ true = rw same f in
                  rw (g, rest, f) refl)
            | inr f ↦
                (let g : is_some (lookup (entry_key entry) overrides) ≡ false = rw same f in
                  rw (g, rest, f, e) refl)
          ]
      | inr e ↦
          let gone = or_else-none (value_in k parent) in
          elim (Bool-cases (is_some (lookup (entry_key entry) overrides))) [
            | inl f ↦ rw (f, e, gone, rest) refl
            | inr f ↦
                rw (f, e, gone, or_else-none (value_in k (keep_parent overrides parent)), rest) refl
          ]
    ]

lookup-ne :
    (k : Bytes) (overrides : List (Bytes × Bytes))
    → ((v : Bytes) → IsIn (k, v) overrides → ⊥)
    → lookup k overrides ≡ none
unfolding lookup
lookup-ne k [] h = refl
lookup-ne k ((key, value) ∷ overrides) h = elim (Bool-cases (eq_bytes key k)) [
  | inl e ↦ absurd (h value (inl (ap (λ x. (x, value)) ((eq_bytes_iff key k).0 e))))
  | inr e ↦ rw e (lookup-ne k overrides (λ v i. h v (inr i)))
]

value_in-print_overrides :
    (k : Bytes) (overrides : List (Bytes × Bytes))
    → All IsKey overrides
    → IsDistinct overrides
    → value_in k (print_overrides overrides) ≡ lookup k overrides
unfolding value_in print_overrides lookup or_else
value_in-print_overrides k [] h d = refl
value_in-print_overrides k ((key, value) ∷ overrides) (h, hs) (n, d) =
    rw
      (
        entry_key-key key value h,
        entry_value-key key value h,
        value_in-print_overrides k overrides hs d,
      )
      (elim (Bool-cases (eq_bytes key k)) [
        | inl e ↦
            let free : lookup k overrides ≡ none =
              lookup-ne k overrides (
                subst (λ x. (v : Bytes) → IsIn (x, v) overrides → ⊥) ((eq_bytes_iff key k).0 e)
                  n) in
            rw (e, free) refl
        | inr e ↦ rw e (or_else-none (lookup k overrides))
      ])

-- For overrides with distinct keys, as those of a map are, that have no `=`, a variable of the merged
-- environment has the value of its override, and one without an override has its value in the
-- parent's environment. The value is that of the last entry with the key.
pub merge_environment_value :
    (k : Bytes) (parent : List Bytes) (overrides : List (Bytes × Bytes))
    → All IsKey overrides
    → IsDistinct overrides
    → value_in k (merge_environment parent overrides)
      ≡ or_else (lookup k overrides) (value_in k parent)
unfolding merge_environment
merge_environment_value k parent overrides h d =
    rw
      (
        value_in-append k (keep_parent overrides parent) (print_overrides overrides),
        value_in-keep_parent k overrides parent,
        value_in-print_overrides k overrides h d,
      )
      (override_last (lookup k overrides) (value_in k parent))
