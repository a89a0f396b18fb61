-- ===== src/Tui/Complete.antt =====
-- internal/tui/model.go: `treeOrder` ends, and shows every process.
use lazywrap.Base.{
  ℕ, zero, suc, ◌+◌, ◌≤◌, ◌<◌, ◌≡◌, refl, ap, inl, inr, length, true, false, ◌||◌, List, [], ◌∷◌,
  ◌++◌, Option, some, arith, ◌==◌, if◌then◌else◌, IsIn, Bool-cases,
}
use lazywrap.Tui.Tree.{
  Process, has_pid, insert_process, sort_processes, visit, visit_children, visit_roots, visit_all,
  tree_order,
}

-- How many of the processes are not in the result.
left : List Process → List Process → ℕ
left result [] = 0
left result (p ∷ ps) = (if has_pid p.identity.pid result then 0 else 1) + left result ps

has_pid_snoc :
    (k : ℕ) (r : List Process) (p : Process)
    → has_pid k (r ++ p ∷ []) ≡ has_pid k r || (p.identity.pid == k)
unfolding has_pid
has_pid_snoc k [] p = ground arith
has_pid_snoc k (q ∷ r) p = ground (arith, has_pid_snoc k r p)

-- What is in `r` is in `r'` too.
abbrev Grows : List Process → List Process → Type 0
Grows r r' = (k : ℕ) → has_pid k r ≡ true → has_pid k r' ≡ true

left-Grows : (r r' : List Process) → Grows r r' → (ps : List Process) → left r' ps ≤ left r ps
unfolding left
left-Grows r r' g [] = ground arith
left-Grows r r' g (p ∷ ps) = ground (arith, g p.identity.pid, left-Grows r r' g ps)

snoc-Grows : (r : List Process) (p : Process) → Grows r (r ++ p ∷ [])
snoc-Grows r p k h = ground (arith, has_pid_snoc k r p)

left_snoc :
    (r : List Process) (p : Process) (ps : List Process)
    → IsIn p ps
    → has_pid p.identity.pid r ≡ false
    → left (r ++ p ∷ []) ps < left r ps
unfolding left
left_snoc r p [] i h = elim i [ ]
left_snoc r p (q ∷ ps) (inl e) h = ground (
  arith,
  has_pid_snoc q.identity.pid r p,
  left-Grows r (r ++ p ∷ []) (snoc-Grows r p) ps,
  ap (λ t. t.identity.pid) e,
)
left_snoc r p (q ∷ ps) (inr i) h =
    ground (arith, left_snoc r p ps i h, has_pid_snoc q.identity.pid r p)

-- What `visit` answers for a process.
record Visited (r : List Process) (o : Option (List Process)) : Type 0 where
  out : List Process
  answers : o ≡ some out
  grows : Grows r out

module _ (ps : List Process) where
  children-Visited :
      (fuel : ℕ) (f : Process → List Process → Option (List Process))
      → ((p : Process) (r : List Process) → IsIn p ps → left r ps < fuel → Visited r (f p r))
      → (k : ℕ) (cs : List Process) → ((p : Process) → IsIn p cs → IsIn p ps)
      → (r : List Process) → left r ps < fuel
      → Visited r (visit_children f k cs r)
  unfolding visit_children
  children-Visited fuel f v k [] sub r lt = record { out = r; answers = refl; grows = λ k h. h }
  children-Visited fuel f v k (c ∷ cs) sub r lt = elim (Bool-cases (c.ppid == k)) [
    | inl e ↦
        let w = v c r (sub c (inl refl)) lt in
        let x =
          children-Visited fuel f v k cs (λ p i. sub p (inr i)) w.out
            (ground (arith, left-Grows r w.out w.grows ps)) in
        record {
          out = x.out;
          answers = ground (arith, e, w.answers, x.answers);
          grows = λ j h. x.grows j (w.grows j h);
        }
    | inr e ↦
        let x = children-Visited fuel f v k cs (λ p i. sub p (inr i)) r lt in
        record { out = x.out; answers = ground (arith, e, x.answers); grows = x.grows }
  ]

  visit-Visited :
      (fuel : ℕ) (p : Process) (r : List Process)
      → IsIn p ps
      → left r ps < fuel
      → Visited r (visit fuel ps p r)
  unfolding visit
  visit-Visited zero p r i lt = absurd (omega arith)
  visit-Visited (suc fuel) p r i lt = elim (Bool-cases (has_pid p.identity.pid r)) [
    | inl e ↦ record { out = r; answers = rw e refl; grows = λ k h. h }
    | inr e ↦
        let x =
          children-Visited fuel (visit fuel ps) (visit-Visited fuel) p.identity.pid ps (λ p i. i)
            (r ++ p ∷ []) (ground (arith, left_snoc r p ps i e)) in
        record {
          out = x.out;
          answers = rw e x.answers;
          grows = λ k h. x.grows k (snoc-Grows r p k h);
        }
  ]

  roots-Visited :
      (fuel : ℕ) (cs : List Process)
      → ((p : Process) → IsIn p cs → IsIn p ps)
      → (r : List Process) → left r ps < fuel
      → Visited r (visit_roots fuel ps cs r)
  unfolding visit_roots
  roots-Visited fuel [] sub r lt = record { out = r; answers = refl; grows = λ k h. h }
  roots-Visited fuel (c ∷ cs) sub r lt = elim (Bool-cases (has_pid c.ppid ps)) [
    | inl e ↦
        let x = roots-Visited fuel cs (λ p i. sub p (inr i)) r lt in
        record { out = x.out; answers = ground (arith, e, x.answers); grows = x.grows }
    | inr e ↦
        let w = visit-Visited fuel c r (sub c (inl refl)) lt in
        let x =
          roots-Visited fuel cs (λ p i. sub p (inr i)) w.out
            (ground (arith, left-Grows r w.out w.grows ps)) in
        record {
          out = x.out;
          answers = ground (arith, e, w.answers, x.answers);
          grows = λ j h. x.grows j (w.grows j h);
        }
  ]

  visit_has :
      (fuel : ℕ) (p : Process) (r out : List Process)
      → IsIn p ps
      → left r ps < fuel
      → visit fuel ps p r ≡ some out
      → has_pid p.identity.pid out ≡ true
  unfolding visit
  visit_has zero p r out i lt h = absurd (omega arith)
  visit_has (suc fuel) p r out i lt h = elim (Bool-cases (has_pid p.identity.pid r)) [
    | inl e ↦ ground (arith, e, h)
    | inr e ↦
        let x =
          children-Visited fuel (visit fuel ps) (visit-Visited fuel) p.identity.pid ps (λ p i. i)
            (r ++ p ∷ []) (ground (arith, left_snoc r p ps i e)) in
        ground (arith, e, h, x.answers, x.grows p.identity.pid, has_pid_snoc p.identity.pid r p)
  ]

  -- The last loop, which visits what the first left.
  record Complete (cs r : List Process) (o : Option (List Process)) : Type 0 where
    out : List Process
    answers : o ≡ some out
    grows : Grows r out
    has : (k : ℕ) → has_pid k cs ≡ true → has_pid k out ≡ true

  all-Complete :
      (fuel : ℕ) (cs : List Process)
      → ((p : Process) → IsIn p cs → IsIn p ps)
      → (r : List Process) → left r ps < fuel
      → Complete cs r (visit_all fuel ps cs r)
  unfolding visit_all has_pid
  all-Complete fuel [] sub r lt = record {
    out = r;
    answers = refl;
    grows = λ k h. h;
    has = λ k h. absurd cc;
  }
  all-Complete fuel (c ∷ cs) sub r lt =
      let w = visit-Visited fuel c r (sub c (inl refl)) lt in
      let x =
        all-Complete fuel cs (λ p i. sub p (inr i)) w.out
          (ground (arith, left-Grows r w.out w.grows ps)) in
      record {
        out = x.out;
        answers = ground (arith, w.answers, x.answers);
        grows = λ j h. x.grows j (w.grows j h);
        has = λ k h. ground (
          arith,
          h,
          x.has k,
          x.grows k,
          visit_has fuel c r w.out (sub c (inl refl)) lt w.answers,
        );
      }

left_le : (r ps : List Process) → left r ps ≤ length ps
unfolding left
left_le r [] = omega arith
left_le r (p ∷ ps) = ground (arith, left_le r ps)

has_pid-insert_process :
    (k : ℕ) (p : Process) (ps : List Process)
    → has_pid k (insert_process p ps) ≡ ((p.identity.pid == k) || has_pid k ps)
unfolding has_pid insert_process
has_pid-insert_process k p [] = refl
has_pid-insert_process k p (q ∷ ps) = ground (arith, has_pid-insert_process k p ps)

has_pid-sort_processes : (k : ℕ) (ps : List Process) → has_pid k (sort_processes ps) ≡ has_pid k ps
unfolding has_pid sort_processes
has_pid-sort_processes k [] = refl
has_pid-sort_processes k (p ∷ ps) =
    ground (arith, has_pid-insert_process k p (sort_processes ps), has_pid-sort_processes k ps)

-- The tree of any processes, cycles of parents included, is found with the fuel given, and every
-- process has its pid in it.
pub tree_order_complete :
    (ps : List Process)
    → (out : List Process) × (tree_order ps ≡ some out)
      × ((k : ℕ) → has_pid k ps ≡ true → has_pid k out ≡ true)
unfolding tree_order
tree_order_complete ps =
    let sorted = sort_processes ps in
    let w =
      roots-Visited sorted (suc (length sorted)) sorted (λ p i. i) []
        (ground (arith, left_le [] sorted)) in
    let x =
      all-Complete sorted (suc (length sorted)) sorted (λ p i. i) w.out
        (ground (arith, left_le w.out sorted)) in
    (
      x.out,
      ground (arith, w.answers, x.answers),
      λ k h. x.has k (ground (arith, has_pid-sort_processes k ps)),
    )
