-- ===== src/Processes/Samples.antt =====
-- Tests of `Owned`, with a group of two, its leader and a process of another group, and of the
-- environment of a child.
use lazywrap.Base.{
  Bytes, codes, eq_bytes, has_byte, bytes_eq, lookup, ℕ, ◌≡◌, ◌≢◌, ◌↔◌, refl, IsIn, inl, inr, ap,
  arith, true, false, List, [], ◌∷◌,
}
use lazywrap.Processes.Environment.{merge_environment, value_in, or_else, merge_environment_value}
use lazywrap.Base.Keys.{IsDistinct}
use lazywrap.Tui.Tree.{Process}
use lazywrap.Processes.{owned, Leads, owned_exact}

abbrev proc : ℕ → ℕ → Process
proc pid group = record {
  identity = record { pid = pid; start_time = [] };
  ppid = 1;
  group = group;
}

abbrev procs : List Process
procs = proc 4 4 ∷ proc 9 9 ∷ proc 5 4 ∷ []

owned_group : owned 4 procs ≡ proc 4 4 ∷ proc 5 4 ∷ []
unfolding owned
owned_group = refl

owned_exact_example :
    IsIn (proc 5 4) (owned 4 procs)
    ↔ (◌≢◌ {A = ℕ} 4 0)
      × (IsIn (proc 5 4) procs)
      × (◌≡◌ {A = ℕ} 4 4)
      × ((q : Process) × Leads 4 procs q)
owned_exact_example = owned_exact 4 procs (proc 5 4)

abbrev parent : List Bytes
parent = codes "PATH=/bin" ∷ codes "PORT=80" ∷ codes "HOME=/root" ∷ []

abbrev overrides : List (Bytes × Bytes)
overrides = (codes "PORT", codes "8080") ∷ (codes "MODE", codes "a=b") ∷ []

merge_environment-parent :
    merge_environment parent overrides
    ≡ codes "PATH=/bin" ∷ codes "HOME=/root" ∷ codes "PORT=8080" ∷ codes "MODE=a=b" ∷ []
unfolding merge_environment eq_bytes
merge_environment-parent = refl

overrides-IsDistinct : IsDistinct overrides
unfolding eq_bytes
overrides-IsDistinct = (
  λ v i. elim i [
    | inl e ↦
        (let no : true ≡ false = ap (λ p. eq_bytes p.0 (codes "MODE")) e in
          absurd (ground (arith, no)))
    | inr j ↦ absurd j
  ],
  ((λ v i. i), tt),
)

merge_environment_value_example :
    value_in (codes "PORT") (merge_environment parent overrides)
    ≡ or_else (lookup (codes "PORT") overrides) (value_in (codes "PORT") parent)
unfolding has_byte
merge_environment_value_example =
    merge_environment_value (codes "PORT") parent overrides (refl, (refl, tt)) overrides-IsDistinct
