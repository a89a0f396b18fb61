-- ===== src/Processes.antt =====
-- internal/process/tracker.go: `Owned`, the processes of a launch. Pids are natural numbers.
mod Samples
pub mod Environment
use lazywrap.Base.{
  ℕ, ◌≡◌, ◌≢◌, ◌↔◌, ◌⊎◌, inl, inr, refl, ap, arith, IsIn, Bool, true, false, ◌&&◌, ◌||◌, List, [],
  ◌∷◌, ◌==◌, if◌then◌else◌, Bool-cases,
}
use lazywrap.Tui.Tree.{Process}

-- The loop that looks for the group's live leader.
unfoldable pub has_leader : ℕ → List Process → Bool
has_leader pid [] = false
has_leader pid (p ∷ ps) =
    let rest = has_leader pid ps in (p.identity.pid == pid && p.group == pid) || rest

unfoldable pub in_group : ℕ → List Process → List Process
in_group pid [] = []
in_group pid (p ∷ ps) = let rest = in_group pid ps in if p.group == pid then p ∷ rest else rest

-- `Owned`
unfoldable pub owned : ℕ → List Process → List Process
unfolding has_leader in_group
owned pid ps = if pid == 0 then [] else if has_leader pid ps then in_group pid ps else []

-- The process `q` leads the group of `pid`.
abbrev pub Leads : ℕ → List Process → Process → Type 0
Leads pid ps q = IsIn q ps × (q.identity.pid ≡ pid) × (q.group ≡ pid)

has_leader-Leads :
    (pid : ℕ) (ps : List Process) → has_leader pid ps ≡ true → (q : Process) × Leads pid ps q
unfolding has_leader
has_leader-Leads pid [] h = cc
has_leader-Leads pid (p ∷ ps) h = elim (Bool-cases (p.identity.pid == pid && p.group == pid)) [
  | inl e ↦ (p, (inl refl, ground (arith, e), ground (arith, e)))
  | inr e ↦
      let (q, (i, a, b)) = has_leader-Leads pid ps (ground (arith, e, h)) in (q, (inr i, a, b))
]

Leads-has_leader :
    (pid : ℕ) (ps : List Process) (q : Process) → Leads pid ps q → has_leader pid ps ≡ true
unfolding has_leader
Leads-has_leader pid [] q (i, a, b) = absurd i
Leads-has_leader pid (p ∷ ps) q (inl e, a, b) =
    ground (arith, ap (λ t. t.identity.pid) e, ap (λ t. t.group) e, a, b)
Leads-has_leader pid (p ∷ ps) q (inr i, a, b) = ground (arith, Leads-has_leader pid ps q (i, a, b))

IsIn-in_group :
    (pid : ℕ) (ps : List Process) (p : Process)
    → IsIn p (in_group pid ps)
    → IsIn p ps × (p.group ≡ pid)
unfolding in_group
IsIn-in_group pid [] p i = absurd i
IsIn-in_group pid (q ∷ ps) p i = elim (Bool-cases (q.group == pid)) [
  | inl e ↦ elim (to_sum (rw e at i)) [
    | inl s ↦ (inl s, ground (arith, e, ap (λ t. t.group) s))
    | inr j ↦ let (k, g) = IsIn-in_group pid ps p j in (inr k, g)
  ]
  | inr e ↦ let (j, g) = IsIn-in_group pid ps p (rw e at i) in (inr j, g)
]
  where
    to_sum : (q ≡ p) ⊎ IsIn p (in_group pid ps) → (q ≡ p) ⊎ IsIn p (in_group pid ps)
    to_sum s = s

in_group-IsIn :
    (pid : ℕ) (ps : List Process) (p : Process)
    → IsIn p ps
    → p.group ≡ pid
    → IsIn p (in_group pid ps)
unfolding in_group
in_group-IsIn pid [] p i e = absurd i
in_group-IsIn pid (q ∷ ps) p (inl s) e =
    let g : (q.group == pid) ≡ true = ground (arith, e, ap (λ t. t.group) s) in rw g (inl s)
in_group-IsIn pid (q ∷ ps) p (inr i) e = elim (Bool-cases (q.group == pid)) [
  | inl g ↦ rw g (inr (in_group-IsIn pid ps p i e))
  | inr g ↦ rw g (in_group-IsIn pid ps p i e)
]

-- For a pid that is not 0, a process is owned if and only if it is one of those given and in the group
-- of the pid, and a process with that pid leads the group; the pid 0 owns none.
pub owned_exact :
    (pid : ℕ) (ps : List Process) (p : Process)
    → IsIn p (owned pid ps)
      ↔ (pid ≢ 0) × (IsIn p ps) × (p.group ≡ pid) × ((q : Process) × Leads pid ps q)
unfolding owned
owned_exact pid ps p = (forth, back)
  where
    forth :
        IsIn p (owned pid ps)
        → (pid ≢ 0) × (IsIn p ps) × (p.group ≡ pid) × ((q : Process) × Leads pid ps q)
    forth i = elim (Bool-cases (pid == 0)) [
      | inl z ↦ absurd (rw z at i)
      | inr n ↦ elim (Bool-cases (has_leader pid ps)) [
        | inl l ↦
            let (j, g) = IsIn-in_group pid ps p (rw (n, l) at i) in
            (ground (arith, n), j, g, has_leader-Leads pid ps l)
        | inr f ↦ absurd (rw (n, f) at i)
      ]
    ]

    back :
        (pid ≢ 0) × (IsIn p ps) × (p.group ≡ pid) × ((q : Process) × Leads pid ps q)
        → IsIn p (owned pid ps)
    back (n, i, g, (q, l)) =
        let z : (pid == 0) ≡ false = ground (arith, n) in
        rw (z, Leads-has_leader pid ps q l) (in_group-IsIn pid ps p i g)
