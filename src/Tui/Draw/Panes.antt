-- ===== src/Tui/Draw/Panes.antt =====
-- internal/tui/model.go: `appLines` and `detailLines`.
--
-- `none` is a slice or an index out of range. What the formats of `fmt` and of `time` answer with a
-- number, a size or a time in it is a parameter, a record of texts; a text is the list of its runes.
use lazywrap.Base.{
  ℕ, zero, suc, ◌+◌, ◌-◌, ◌/◌, Bytes, codes, eq_bytes, is_empty, length, take, drop, get_elem?,
  Bool, false, ◌&&◌, List, [], ◌∷◌, ◌++◌, Option, none, some, ◌==◌, ltb, leb, if◌then◌else◌,
}
use lazywrap.Observe.{Entry}
use lazywrap.Tui.{App, Model, visible}
use lazywrap.Tui.Tree.{Process, Identity, tree_order}
use lazywrap.Tui.Lines.{pad}

-- A draw that is out of range ends there.
infixl 5 ◌>>=◌
abbrev pub ◌>>=◌ {ℓ κ} : {A : Type ℓ} {B : Type κ} → Option A → (A → Option B) → Option B
none >>= f = none
some a >>= f = f a

-- The formatted texts.
pub record Texts : Type 0 where
  pub banner : ℕ → ℕ → Bytes
  pub app_name : App → Bytes
  pub app_stats : App → Bytes
  pub app_head : App → Bytes
  pub app_usage : App → Bytes
  pub chosen : Process → Bytes
  pub collapsed : Process → ℕ → Bytes
  pub process_row : Process → Bytes
  pub log_row : Entry → Bytes
  pub status : Bytes

-- `max` and `min`
abbrev pub larger : ℕ → ℕ → ℕ
larger a b = if ltb a b then b else a

abbrev pub smaller : ℕ → ℕ → ℕ
smaller a b = if ltb a b then a else b

-- `xs[start:]`
abbrev pub slice_from {ℓ} : {A : Type ℓ} → ℕ → List A → Option (List A)
slice_from first xs = if leb first (length xs) then some (drop first xs) else none

-- `xs[start:end]`
abbrev pub slice {ℓ} : {A : Type ℓ} → ℕ → ℕ → List A → Option (List A)
slice first end xs =
    if leb first end && leb end (length xs) then some (drop first (take end xs)) else none

-- The loop of `appLines` that finds the selected app, the last of its id.
unfoldable pub selected_index : Bytes → ℕ → ℕ → List App → ℕ
unfolding eq_bytes
selected_index id i found [] = found
selected_index id i found (a ∷ apps) =
    selected_index id (i + 1) (if eq_bytes a.id id then i else found) apps

unfoldable pub app_rows : Texts → Bytes → List App → List Bytes
unfolding eq_bytes
app_rows t id [] = []
app_rows t id (a ∷ apps) =
    let stats : Bytes = elim a.processes [ [] ↦ codes "-" | _ ∷ _ ↦ t.app_stats a ] in
    let prefix = if eq_bytes a.id id then codes "> " else codes "  " in
    (prefix ++ t.app_name a) ∷ (codes "   " ++ stats) ∷ app_rows t id apps

-- `appLines`
unfoldable pub app_lines : Texts → ℕ → Model → Option (List Bytes)
unfolding visible selected_index app_rows
app_lines t height m =
    let apps = visible m in
    let first = selected_index m.selected 0 0 apps + 1 - larger 1 ((height - 1) / 2) in
    slice_from first apps >>= λ shown.
    some ((codes " APPS  /" ++ m.filter) ∷ app_rows t m.selected shown)

-- `current`
unfoldable pub current_app : Bytes → List App → App
unfolding eq_bytes
current_app id [] = record { id = []; processes = [] }
current_app id (a ∷ apps) = let rest = current_app id apps in if eq_bytes a.id id then a else rest

abbrev pub is_identity : Option Identity → Identity → Bool
unfolding eq_bytes
is_identity none q = false
is_identity (some p) q = p.pid == q.pid && eq_bytes p.start_time q.start_time

-- The loop of `detailLines` that finds the process under the cursor.
unfoldable pub find_process : Option Identity → ℕ → ℕ → List Process → ℕ
unfolding eq_bytes
find_process id i found [] = found
find_process id i found (p ∷ ps) =
    find_process id (i + 1) (if is_identity id p.identity then i else found) ps

-- `depths`, a later process first.
unfoldable pub depth_of : ℕ → List (ℕ × ℕ) → ℕ
depth_of ppid [] = 0
depth_of ppid ((pid, d) ∷ depths) =
    let rest = depth_of ppid depths in if pid == ppid then d + 1 else rest

-- Two blanks for each level.
abbrev pub indent : ℕ → Bytes
indent zero = []
indent (suc n) = 32 ∷ 32 ∷ indent n

unfoldable pub process_rows : Texts → ℕ → ℕ → List (ℕ × ℕ) → List Process → List Bytes
unfolding depth_of
process_rows t cursor i depths [] = []
process_rows t cursor i depths (p ∷ ps) =
    let depth = depth_of p.ppid depths in
    let prefix = if i == cursor then codes "> " else codes "  " in
    (prefix ++ indent (smaller depth 5) ++ t.process_row p)
    ∷ process_rows t cursor (i + 1) ((p.identity.pid, depth) ∷ depths) ps

-- `detailLines` below its second line, on the processes in the order of the tree.
unfoldable pub tree_lines :
    Texts → ℕ → List Bytes → List Process → Model → Option (List Bytes × Model)
unfolding find_process process_rows pad
tree_lines t height above [] m = none
tree_lines t height above (p ∷ ps) m =
    let index = smaller (find_process m.process_id 0 m.process_index (p ∷ ps)) (length ps) in
    get_elem? (p ∷ ps) index >>= λ q.
    let m' = record m { process_index = index; process_id = some q.identity } in
    let lines = above ++ t.chosen q ∷ [] in
    let first = index + 1 - larger 1 (height - length lines) in
    if m.expanded
    then slice_from first (process_rows t index 0 [] (p ∷ ps))
      >>= (λ rows. some (pad (lines ++ rows) height, m'))
    else some (pad (lines ++ t.collapsed p (length (p ∷ ps)) ∷ []) height, m')

abbrev pub no_group_line : Bytes
no_group_line = codes " CPU/RSS: unavailable (no live owned process group)"

abbrev pub above_tree : Texts → App → List Bytes
above_tree t a =
    t.app_head a ∷ t.app_usage a ∷ codes " PROCESS TREE (p focus; Enter expand/collapse)" ∷ []

-- `detailLines` of an app with these processes.
unfoldable pub process_lines : Texts → ℕ → App → List Process → Model → Option (List Bytes × Model)
unfolding tree_order tree_lines pad
process_lines t height a [] m = some (pad (t.app_head a ∷ no_group_line ∷ []) height, m)
process_lines t height a (p ∷ ps) m =
    tree_order (p ∷ ps) >>= λ order. tree_lines t height (above_tree t a) order m

-- `detailLines`
unfoldable pub detail_lines : Texts → ℕ → Model → Option (List Bytes × Model)
unfolding current_app process_lines pad
detail_lines t height m =
    let a = current_app m.selected m.apps in
    if is_empty a.id
    then some (pad (codes " No matching app" ∷ []) height, m)
    else process_lines t height a a.processes m
