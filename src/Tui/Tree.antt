-- ===== src/Tui/Tree.antt =====
-- internal/tui/model.go: `treeOrder`, on the processes of internal/process/tracker.go.
use lazywrap.Base.{
  ℕ, zero, suc, Bytes, length, Bool, false, ◌||◌, List, [], ◌∷◌, ◌++◌, Option, none, some, ◌==◌,
  leb, if◌then◌else◌,
}

pub record Identity : Type 0 where
  pub pid : ℕ
  pub start_time : Bytes

-- What the tree reads of `process.Stats`.
pub record Process : Type 0 where
  pub identity : Identity
  pub ppid : ℕ
  pub group : ℕ

unfoldable pub insert_process : Process → List Process → List Process
insert_process p [] = p ∷ []
insert_process p (q ∷ qs) =
    let rest = insert_process p qs in
    if leb p.identity.pid q.identity.pid then p ∷ q ∷ qs else q ∷ rest

-- `sort.Slice` by pid
unfoldable pub sort_processes : List Process → List Process
unfolding insert_process
sort_processes [] = []
sort_processes (p ∷ ps) = insert_process p (sort_processes ps)

-- `pids`, and `seen` as the pids of what the result has.
unfoldable pub has_pid : ℕ → List Process → Bool
has_pid k [] = false
has_pid k (p ∷ ps) = let rest = has_pid k ps in p.identity.pid == k || rest

-- The loop of `visit` over the children of the process `k`, with the recursive call of `visit`.
unfoldable pub visit_children :
    (Process → List Process → Option (List Process))
    → ℕ
    → List Process
    → List Process
    → Option (List Process)
visit_children f k [] result = some result
visit_children f k (c ∷ cs) result = elim (if c.ppid == k then f c result else some result) [
  | none ↦ none
  | some r ↦ visit_children f k cs r
]

-- The closure `visit`; `none` when the fuel is spent.
unfoldable pub visit : ℕ → List Process → Process → List Process → Option (List Process)
unfolding has_pid visit_children
visit zero ps p result = none
visit (suc fuel) ps p result =
    let rest = visit_children (visit fuel ps) p.identity.pid ps (result ++ p ∷ []) in
    if has_pid p.identity.pid result then some result else rest

-- The two loops over the sorted processes: the first visits those whose parent is not there.
unfoldable pub visit_roots : ℕ → List Process → List Process → List Process → Option (List Process)
unfolding visit has_pid
visit_roots fuel ps [] result = some result
visit_roots fuel ps (p ∷ more) result =
    elim (if has_pid p.ppid ps then some result else visit fuel ps p result) [
      | none ↦ none
      | some r ↦ visit_roots fuel ps more r
    ]

unfoldable pub visit_all : ℕ → List Process → List Process → List Process → Option (List Process)
unfolding visit
visit_all fuel ps [] result = some result
visit_all fuel ps (p ∷ more) result = elim (visit fuel ps p result) [
  | none ↦ none
  | some r ↦ visit_all fuel ps more r
]

-- `treeOrder`, with more fuel than there are processes.
unfoldable pub tree_order : List Process → Option (List Process)
unfolding sort_processes visit_roots visit_all
tree_order ps =
    let sorted = sort_processes ps in
    let fuel = suc (length sorted) in
    elim (visit_roots fuel sorted sorted []) [
      | none ↦ none
      | some r ↦ visit_all fuel sorted sorted r
    ]
