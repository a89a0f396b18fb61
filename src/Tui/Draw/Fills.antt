-- ===== src/Tui/Draw/Fills.antt =====
-- internal/tui/model.go: no slice or index of `view` is out of range.
use lazywrap.Base.{
  ℕ, zero, suc, ◌+◌, ◌-◌, ◌/◌, ◌≤◌, ◌<◌, ◌≡◌, refl, Bytes, ◌&&◌, codes, eq_bytes, is_empty, inl,
  inr, length, map, get_elem?, true, List, [], ◌∷◌, ◌++◌, Option, none, some, ◌==◌, ltb, leb,
  if◌then◌else◌, arith, Bool-cases, if_lem,
}
use lazywrap.Observe.{Store, entries}
use lazywrap.Tui.{App, Model, visible}
use lazywrap.Tui.Tree.{Process, has_pid, tree_order}
use lazywrap.Tui.Complete.{tree_order_complete}
use lazywrap.Tui.Lines.{length-pad}
use lazywrap.Tui.Draw.Panes.{
  ◌>>=◌, Texts, larger, smaller, slice_from, slice, selected_index, app_lines, current_app,
  find_process, depth_of, process_rows, tree_lines, no_group_line, above_tree, process_lines,
  detail_lines,
}
use lazywrap.Tui.Draw.Logs.{
  pinned_end, log_title, log_rows, find_end, Window, note_end, window, row_text, log_lines,
}

-- It answers, and what it answers has the property.
abbrev pub Yields : {A : Type 0} → (A → Type 0) → Option A → Type 0
Yields P none = ⊥
Yields P (some a) = P a

pub bind-Yields :
    {A B : Type 0} (P : A → Type 0) (Q : B → Type 0) (o : Option A) (f : A → Option B)
    → Yields P o
    → ((a : A) → P a → Yields Q (f a))
    → Yields Q (o >>= f)
bind-Yields P Q none f p h = absurd p
bind-Yields P Q (some a) f p h = h a p

pub Yields-mono :
    {A : Type 0} (P Q : A → Type 0) (o : Option A) → ((a : A) → P a → Q a) → Yields P o → Yields Q o
Yields-mono P Q none h p = absurd p
Yields-mono P Q (some a) h p = h a p

abbrev pub IsThere : {A : Type 0} → A → Type 0
IsThere a = Unit

abbrev HasSome : List Process → Type 0
HasSome ps = 0 < length ps

-- A pane of so many lines.
abbrev pub IsPane : ℕ → List Bytes × Model → Type 0
IsPane h (lines, m) = length lines ≡ h

selected_index_bound :
    (id : Bytes) (i found : ℕ) (apps : List App)
    → found ≤ i + length apps
    → selected_index id i found apps ≤ i + length apps
unfolding selected_index
selected_index_bound id i found [] le = le
selected_index_bound id i found (a ∷ apps) le = elim (Bool-cases (eq_bytes a.id id)) [
  | inl e ↦ rw e (ground (arith, selected_index_bound id (i + 1) i apps))
  | inr e ↦ rw e (ground (arith, selected_index_bound id (i + 1) found apps))
]

find_end_bound :
    (log_end i end : ℕ) (rows : List (ℕ × Bytes))
    → end ≤ i
    → find_end log_end i end rows ≤ i + length rows
unfolding find_end
find_end_bound log_end i end [] le = ground arith
find_end_bound log_end i end ((seq, text) ∷ rows) le =
    ground
      (arith, find_end_bound log_end (i + 1) end rows, find_end_bound log_end (i + 1) (i + 1) rows)

get_elem?-IsThere :
    {A : Type 0} (xs : List A) (i : ℕ) → i < length xs → Yields IsThere (get_elem? xs i)
get_elem?-IsThere [] i lt = absurd (omega arith)
get_elem?-IsThere (x ∷ xs) zero lt = tt
get_elem?-IsThere (x ∷ xs) (suc i) lt = get_elem?-IsThere xs i (omega arith)

slice_from-IsThere :
    {A : Type 0} (start : ℕ) (xs : List A)
    → start ≤ length xs
    → Yields IsThere (slice_from start xs)
slice_from-IsThere start xs le = let e : leb start (length xs) ≡ true = ground arith in rw e tt

slice-IsThere :
    {A : Type 0} (start end : ℕ) (xs : List A)
    → start ≤ end
    → end ≤ length xs
    → Yields IsThere (slice start end xs)
slice-IsThere start end xs le le' =
    let e : leb start end ≡ true = ground arith in
    let e' : leb end (length xs) ≡ true = ground arith in rw (e, e') tt

length-process_rows :
    (t : Texts) (cursor i : ℕ) (depths : List (ℕ × ℕ)) (ps : List Process)
    → length (process_rows t cursor i depths ps) ≡ length ps
unfolding process_rows
length-process_rows t cursor i depths [] = refl
length-process_rows t cursor i depths (p ∷ ps) = omega (
  arith,
  length-process_rows t cursor (i + 1) ((p.identity.pid, depth_of p.ppid depths) ∷ depths) ps,
)

pub app_lines-IsThere : (t : Texts) (height : ℕ) (m : Model) → Yields IsThere (app_lines t height m)
unfolding app_lines
app_lines-IsThere t height m =
    let apps = visible m in
    let start = selected_index m.selected 0 0 apps + 1 - larger 1 ((height - 1) / 2) in
    bind-Yields IsThere IsThere (slice_from start apps) _
      (slice_from-IsThere start apps (ground (arith, selected_index_bound m.selected 0 0 apps)))
      (λ shown i. tt)

tree_lines-IsPane :
    (t : Texts) (height : ℕ) (above : List Bytes) (p : Process) (ps : List Process) (m : Model)
    → Yields (IsPane height) (tree_lines t height above (p ∷ ps) m)
unfolding tree_lines
tree_lines-IsPane t height above p ps m =
    let index = smaller (find_process m.process_id 0 m.process_index (p ∷ ps)) (length ps) in
    bind-Yields IsThere (IsPane height) (get_elem? (p ∷ ps) index) _
      (get_elem?-IsThere (p ∷ ps) index (ground arith))
      (λ q i.
        let rows = process_rows t index 0 [] (p ∷ ps) in
        let lines = above ++ t.chosen q ∷ [] in
        let start = index + 1 - larger 1 (height - length lines) in
        if_lem (Yields (IsPane height)) m.expanded
          (bind-Yields IsThere (IsPane height) (slice_from start rows) _
            (slice_from-IsThere start rows
              (ground (arith, length-process_rows t index 0 [] (p ∷ ps))))
            (λ shown j. length-pad (lines ++ shown) height))
          (length-pad (lines ++ t.collapsed p (length (p ∷ ps)) ∷ []) height))

some_pid : (k : ℕ) (ps : List Process) → has_pid k ps ≡ true → 0 < length ps
unfolding has_pid
some_pid k [] h = ground (arith, h)
some_pid k (p ∷ ps) h = omega arith

tree_order_some : (p : Process) (ps : List Process) → Yields HasSome (tree_order (p ∷ ps))
unfolding has_pid
tree_order_some p ps =
    let (out, e, has) = tree_order_complete (p ∷ ps) in
    rw e (some_pid p.identity.pid out (has p.identity.pid (ground arith)))

tree_lines_some :
    (t : Texts) (height : ℕ) (above : List Bytes) (ps : List Process) (m : Model)
    → 0 < length ps
    → Yields (IsPane height) (tree_lines t height above ps m)
tree_lines_some t height above [] m lt = absurd (omega arith)
tree_lines_some t height above (p ∷ ps) m lt = tree_lines-IsPane t height above p ps m

process_lines-IsPane :
    (t : Texts) (height : ℕ) (a : App) (ps : List Process) (m : Model)
    → Yields (IsPane height) (process_lines t height a ps m)
unfolding process_lines
process_lines-IsPane t height a [] m = length-pad (t.app_head a ∷ no_group_line ∷ []) height
process_lines-IsPane t height a (p ∷ ps) m =
    bind-Yields HasSome (IsPane height) (tree_order (p ∷ ps)) _ (tree_order_some p ps)
      (λ order lt. tree_lines_some t height (above_tree t a) order m lt)

pub detail_lines-IsPane :
    (t : Texts) (height : ℕ) (m : Model) → Yields (IsPane height) (detail_lines t height m)
unfolding detail_lines
detail_lines-IsPane t height m =
    if_lem (Yields (IsPane height)) (is_empty (current_app m.selected m.apps).id)
      (length-pad (codes " No matching app" ∷ []) height)
      (process_lines-IsPane t height (current_app m.selected m.apps)
        (current_app m.selected m.apps).processes m)

-- The window ends among the rows.
abbrev IsInside : List (ℕ × Bytes) → Window → Type 0
IsInside rows w = w.end ≤ length rows

note_end-IsInside :
    (end offset log_end : ℕ) (rows : List (ℕ × Bytes))
    → end ≤ length rows
    → Yields (IsInside rows) (note_end end offset log_end rows)
unfolding note_end
note_end-IsInside end offset log_end rows le = elim (Bool-cases (ltb 0 offset && ltb 0 end)) [
  | inl e ↦ rw e (
      bind-Yields IsThere (IsInside rows) (get_elem? rows (end - 1)) _
        (get_elem?-IsThere rows (end - 1) (ground arith)) (λ row i. le))
  | inr e ↦ rw e le
]

pub pinned_end_bound :
    (log_end : ℕ) (rows : List (ℕ × Bytes)) → pinned_end log_end rows ≤ length rows
unfolding pinned_end
pinned_end_bound log_end rows = ground (arith, find_end_bound log_end 0 0 rows)

window-IsInside :
    (offset log_end : ℕ) (rows : List (ℕ × Bytes))
    → Yields (IsInside rows) (window offset log_end rows)
unfolding window
window-IsInside offset log_end rows =
    let n = length rows in
    let noted = if offset == 0 then 0 else log_end in
    let end = pinned_end noted rows in
    let offset' = smaller offset (n - 1) in
    if_lem (Yields (IsInside rows)) (ltb 0 offset' && ltb 0 noted)
      (note_end-IsInside end (n - end) noted rows (pinned_end_bound noted rows))
      (note_end-IsInside (n - offset') offset' noted rows (omega arith))

pub log_lines-IsPane :
    (t : Texts) (store : Store) (height : ℕ) (m : Model)
    → Yields (IsPane height) (log_lines t store height m)
unfolding log_lines
log_lines-IsPane t store height m =
    let rows = log_rows t m.log_filter (entries store m.selected m.events) in
    bind-Yields (IsInside rows) (IsPane height) (window m.offset m.log_end rows) _
      (window-IsInside m.offset m.log_end rows)
      (λ w le.
        bind-Yields IsThere (IsPane height) (slice (w.end - (height - 1)) w.end rows) _
          (slice-IsThere (w.end - (height - 1)) w.end rows (ground arith) le)
          (λ shown i. length-pad (log_title m ∷ map row_text shown) height))
