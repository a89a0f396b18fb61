-- ===== src/Tui/Draw/Logs.antt =====
-- internal/tui/model.go: `logLines`.
use lazywrap.Base.{
  ℕ, ◌+◌, ◌-◌, Bytes, codes, to_lower, length, map, get_elem?, ◌&&◌, List, [], ◌∷◌, ◌++◌, Option,
  some, ◌==◌, ltb, leb, if◌then◌else◌,
}
use lazywrap.Observe.{Entry, Store, entries}
use lazywrap.Tui.{Model, contains}
use lazywrap.Tui.Lines.{pad}
use lazywrap.Tui.Draw.Panes.{◌>>=◌, Texts, smaller, slice}

-- The rows that the log filter keeps, each with the number of its entry.
unfoldable pub log_rows : Texts → Bytes → List Entry → List (ℕ × Bytes)
unfolding contains to_lower
log_rows t filter [] = []
log_rows t filter (e ∷ es) =
    let rest = log_rows t filter es in
    let text = t.log_row e in
    if contains (to_lower text) (to_lower filter) then (e.seq, text) ∷ rest else rest

-- The loop of `logLines` over the numbers of the rows.
unfoldable pub find_end : ℕ → ℕ → ℕ → List (ℕ × Bytes) → ℕ
find_end log_end i end [] = end
find_end log_end i end ((seq, text) ∷ rows) =
    find_end log_end (i + 1) (if leb seq log_end then i + 1 else end) rows

-- Where the rows end, with the offset and `logEnd` that go with it.
pub record Window : Type 0 where
  pub end : ℕ
  pub offset : ℕ
  pub log_end : ℕ

-- `if m.offset > 0 && end > 0`
unfoldable pub note_end : ℕ → ℕ → ℕ → List (ℕ × Bytes) → Option Window
note_end end offset log_end rows =
    if ltb 0 offset && ltb 0 end
    then get_elem? rows (end - 1)
      >>= (λ row. some (record { end = end; offset = offset; log_end = row.0 }))
    else some (record { end = end; offset = offset; log_end = log_end })

-- `end` while `logEnd` holds.
unfoldable pub pinned_end : ℕ → List (ℕ × Bytes) → ℕ
unfolding find_end
pinned_end log_end rows =
    let found = find_end log_end 0 0 rows in if found == 0 && ltb 0 (length rows) then 1 else found

unfoldable pub window : ℕ → ℕ → List (ℕ × Bytes) → Option Window
unfolding pinned_end note_end
window offset log_end rows =
    let n = length rows in
    let noted = if offset == 0 then 0 else log_end in
    let offset' = smaller offset (n - 1) in
    let end = pinned_end noted rows in
    if ltb 0 offset' && ltb 0 noted
    then note_end end (n - end) noted rows
    else note_end (n - offset') offset' noted rows

abbrev pub row_text : ℕ × Bytes → Bytes
row_text (seq, text) = text

abbrev pub log_title : Model → Bytes
log_title m =
    (if m.events then codes " EVENTS" else codes " LOGS")
    ++ (if m.offset == 0 then codes " [tail]" else codes " [paused]")
    ++ codes " /"
    ++ m.log_filter

-- `logLines`
unfoldable pub log_lines : Texts → Store → ℕ → Model → Option (List Bytes × Model)
unfolding log_rows entries window pad
log_lines t store height m =
    let rows = log_rows t m.log_filter (entries store m.selected m.events) in
    window m.offset m.log_end rows >>= λ w. slice (w.end - (height - 1)) w.end rows >>= λ shown.
    some (
      pad (log_title m ∷ map row_text shown) height,
      record m { offset = w.offset; log_end = w.log_end },
    )
