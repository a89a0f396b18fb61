-- ===== src/Observe/Tests.antt =====
-- The theorem of this part at a concrete input.
use lazywrap.Base.{◌≡◌, codes, true, List, [], ◌∷◌}
use lazywrap.Observe.{capacity, Entry, new_store, entries}
use lazywrap.Observe.Last.{last_of}
use lazywrap.Observe.Bounds.{append_all, shown, store_last}

abbrev line : Entry
line = record { seq = 0; service = codes "web"; stream = codes "stdout"; text = codes "hello" }

abbrev note : Entry
note = record { seq = 0; service = codes "web"; stream = []; text = codes "ready" }

abbrev history : List Entry
history = line ∷ note ∷ line ∷ note ∷ []

store_last_example :
    entries (append_all new_store history) (codes "web") true
    ≡ last_of capacity (shown (codes "web") true 0 history)
store_last_example = store_last history (codes "web") true
