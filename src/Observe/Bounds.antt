-- ===== src/Observe/Bounds.antt =====
-- What a store holds after any history: the latest records of each service and kind, clipped.
use mathlib.Core.List.{append-nil, append_assoc}
use lazywrap.Base.{
  ℕ, ◌+◌, ◌%◌, ◌^◌, ◌≤◌, ◌≡◌, sym, ap, ◌∙◌, inl, inr, Bytes, bytes_eq, Bool, true, false, ◌&&◌, not,
  List, [], ◌∷◌, ◌++◌, arith, if◌then◌else◌, Bool-cases, ◌==◌, length, take, length-append,
  length-take, lookup-insert, is_empty, eq_bytes, eq_bytes_iff,
}
use lazywrap.Observe.{
  capacity, ellipsis, Entry, Table, Store, new_store, entries_of, make_room, clip_to, clip, add_to,
  append, entries,
}
use lazywrap.Observe.Last.{
  last_of, length-last_of, last_of-append_last_of, last_of_short, drop_one-append,
}

clip_to_bound : (limit : ℕ) (t : Bytes) → length (clip_to limit t) ≤ limit + 3
unfolding clip_to
clip_to_bound limit t = ground (arith, length-append (take limit t) ellipsis, length-take limit t)

clip_bound : (t : Bytes) → length (clip t) ≤ 4099
unfolding clip
clip_bound t = clip_to_bound 4096 t

make_room_last :
    (es : List Entry) (e : Entry)
    → length es ≤ capacity
    → make_room es ++ e ∷ [] ≡ last_of capacity (es ++ e ∷ [])
unfolding make_room
make_room_last es e h = elim (Bool-cases (length es == capacity)) [
  | inl full ↦ rw full (drop_one-append 499 es e (ground arith))
  | inr room ↦
      rw room
        (sym (last_of_short capacity (es ++ e ∷ []) (ground (arith, length-append es (e ∷ [])))))
]

entries_of-add_to :
    (e : Entry) (t : Table) (service : Bytes)
    → entries_of service (add_to e t) ≡ (
        if eq_bytes e.service service
        then make_room (entries_of service t) ++ e ∷ []
        else entries_of service t)
unfolding entries_of add_to
entries_of-add_to e t service = ground (
  arith,
  lookup-insert e.service service (make_room (entries_of e.service t) ++ e ∷ []) t,
  eq_bytes_iff e.service service,
)

-- The record that is stored for `e` when the sequence stands at `n`.
abbrev pub stamp : ℕ → Entry → Entry
stamp n e = record e { seq = (n + 1) % 2 ^ 64; text = clip e.text }

-- The records of a service that its events (true) or logs (false) show.
abbrev pub shows : Bytes → Bool → Entry → Bool
shows service true e = eq_bytes e.service service && is_empty e.stream
shows service false e = eq_bytes e.service service && not (is_empty e.stream)

entries-append_room :
    (s : Store) (e : Entry) (service : Bytes) (b : Bool)
    → entries (append s e) service b ≡ (
        if shows service b e
        then make_room (entries s service b) ++ stamp s.seq e ∷ []
        else entries s service b)
unfolding entries append
entries-append_room s e service true =
    ground (arith, entries_of-add_to (stamp s.seq e) s.events service)
entries-append_room s e service false =
    ground (arith, entries_of-add_to (stamp s.seq e) s.logs service)

entries-append :
    (s : Store) (e : Entry) (service : Bytes) (b : Bool)
    → length (entries s service b) ≤ capacity
    → entries (append s e) service b
      ≡ last_of capacity
          (entries s service b ++ (if shows service b e then stamp s.seq e ∷ [] else []))
entries-append s e service b h = elim (Bool-cases (shows service b e)) [
  | inl x ↦ rw x (
      entries-append_room s e service b
      ∙ rw x (make_room_last (entries s service b) (stamp s.seq e) h))
  | inr x ↦
      rw (x, append-nil)
        (entries-append_room s e service b
          ∙ rw x (sym (last_of_short capacity (entries s service b) h)))
]

-- A history of records, and the part of it that a service and a kind show.
pub append_all : Store → List Entry → Store
append_all s [] = s
append_all s (e ∷ es) = append_all (append s e) es

pub shown : Bytes → Bool → ℕ → List Entry → List Entry
shown service b n [] = []
shown service b n (e ∷ es) =
    (if shows service b e then stamp n e ∷ [] else []) ++ shown service b ((n + 1) % 2 ^ 64) es

append-seq : (s : Store) (e : Entry) → (append s e).seq ≡ (s.seq + 1) % 2 ^ 64
unfolding append
append-seq s e = ground arith

entries-append_all :
    (s : Store) (es : List Entry) (service : Bytes) (b : Bool)
    → length (entries s service b) ≤ capacity
    → entries (append_all s es) service b
      ≡ last_of capacity (entries s service b ++ shown service b s.seq es)
unfolding append_all shown
entries-append_all s [] service b h =
    rw append-nil (sym (last_of_short capacity (entries s service b) h))
entries-append_all s (e ∷ es) service b h =
    let new : List Entry = if shows service b e then stamp s.seq e ∷ [] else [] in
    let step = entries-append s e service b h in
    let rest = shown service b ((s.seq + 1) % 2 ^ 64) es in
    let fits = length-last_of capacity (entries s service b ++ new) in
    entries-append_all (append s e) es service b (rw step fits)
    ∙ rw (step, append-seq s e)
        (last_of-append_last_of capacity (entries s service b ++ new) rest
          ∙ ap (last_of capacity) (append_assoc (entries s service b) new rest))

-- After any history a service shows the last 500 of its records, in their order: no newer one is
-- lost, logs and events do not displace one another, nor do services.
pub store_last :
    (es : List Entry) (service : Bytes) (b : Bool)
    → entries (append_all new_store es) service b ≡ last_of capacity (shown service b 0 es)
unfolding new_store entries
store_last es service true = entries-append_all new_store es service true (omega arith)
store_last es service false = entries-append_all new_store es service false (omega arith)
