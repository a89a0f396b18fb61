-- ===== src/Observe.antt =====
-- internal/observe/store.go: bounded logs and events of each service. The time of an entry is left
-- out; the bytes of an entry are numbers.
mod Last
mod Bounds
mod Tests
use lazywrap.Base.{
  ℕ, suc, ◌+◌, ◌-◌, ◌%◌, ◌^◌, Bytes, bytes_eq, codes, Bool, true, false, List, [], ◌∷◌, ◌++◌,
  Option, none, some, ◌==◌, ltb, if◌then◌else◌, is_empty, length, take, drop, lookup, insert,
  eq_bytes, trim_space,
}

abbrev pub capacity : ℕ
capacity = 500

pub record Entry : Type 0 where
  pub seq : ℕ
  pub service : Bytes
  pub stream : Bytes
  pub text : Bytes

abbrev pub Table : Type 0
Table = List (Bytes × List Entry)

pub record Store : Type 0 where
  pub seq : ℕ
  pub logs : Table
  pub events : Table

unfoldable pub new_store : Store
new_store = record { seq = 0; logs = []; events = [] }

-- `target[service]`, which is nil for a service with no entries.
unfoldable pub entries_of : Bytes → Table → List Entry
unfolding lookup
entries_of service t = elim (lookup service t) [ none ↦ [] | some es ↦ es ]

-- The oldest entry makes room.
unfoldable pub make_room : List Entry → List Entry
make_room es = if length es == capacity then drop 1 es else es

-- The three bytes of "…" in UTF-8.
abbrev pub ellipsis : Bytes
ellipsis = 0xe2 ∷ 0x80 ∷ 0xa6 ∷ []

unfoldable pub clip_to : ℕ → Bytes → Bytes
clip_to limit text = if ltb limit (length text) then take limit text ++ ellipsis else text

unfoldable pub clip : Bytes → Bytes
clip text = clip_to 4096 text

-- `target[e.Service] = append(entries, e)`
unfoldable pub add_to : Entry → Table → Table
unfolding entries_of make_room insert
add_to e t = insert e.service (make_room (entries_of e.service t) ++ e ∷ []) t

-- `Store.append`; `seq` is a uint64.
unfoldable pub append : Store → Entry → Store
unfolding add_to clip
append s e =
    let n = (s.seq + 1) % 2 ^ 64 in
    let e' = record e { seq = n; text = clip e.text } in
    if is_empty e.stream
    then record s { seq = n; events = add_to e' s.events }
    else record s { seq = n; logs = add_to e' s.logs }

unfoldable pub entries : Store → Bytes → Bool → List Entry
unfolding entries_of
entries s service true = entries_of service s.events
entries s service false = entries_of service s.logs

-- An attribute of a log record, its value as text.
pub record Attr : Type 0 where
  pub key : Bytes
  pub value : Bytes

-- One round of the loop of `Handle` over the attributes.
unfoldable pub apply_attr : Entry → Attr → Entry
unfolding eq_bytes
apply_attr e a =
    if eq_bytes a.key (codes "service")
    then record e { service = a.value }
    else if eq_bytes a.key (codes "stream")
    then record e { stream = a.value }
    else record e { text = e.text ++ (b' ' ∷ (a.key ++ (b'=' ∷ a.value))) }

unfoldable pub apply_attrs : Entry → List Attr → Entry
unfolding apply_attr
apply_attrs e [] = e
apply_attrs e (a ∷ as') = apply_attrs (apply_attr e a) as'

pub record Handler : Type 0 where
  pub attrs : List Attr
  pub group : Bytes

-- `Handle` of a record with this message and these attributes.
unfoldable pub handle : Handler → Store → Bytes → List Attr → Store
unfolding apply_attrs append trim_space
handle h s message own =
    let e =
      apply_attrs (record { seq = 0; service = []; stream = []; text = message })
        (h.attrs ++ own) in
    append s
      (if is_empty h.group then e else record e { text = trim_space (h.group ++ (b' ' ∷ e.text)) })

unfoldable pub with_attrs : Handler → List Attr → Handler
with_attrs h more = record h { attrs = h.attrs ++ more }

unfoldable pub with_group : Handler → Bytes → Handler
with_group h name = record h { group = h.group ++ (name ++ codes ".") }
