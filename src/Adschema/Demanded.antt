-- ===== src/Adschema/Demanded.antt =====
-- internal/adschema/resolve.go: the walk of closure enters every class that can be reached.
use mathlib.Core.List.{Memᴰ}
use go_adpwsh.Prelude.{◌≡◌, true, some, List, ◌⊎◌}
use go_adpwsh.Prelude.Text.{Bytes, to_lower}
use go_adpwsh.Adschema.Resolve.{
  RawClass, Raw, Contributions, find_class, is_visited, parents, Queued,
}
use go_adpwsh.Adschema.Catalog.{is_mandatory}
use go_adpwsh.Adschema.Recorded.{Demands}

-- The class itself, and with a class every class of the schema that it names as a parent.
pub data Reached (raw : Raw) (start : RawClass) : RawClass → Type 0 where
  itself : Reached raw start start
  parent :
      {c d : RawClass} (name : Bytes)
      → Reached raw start c
      → Memᴰ name (parents c)
      → find_class (to_lower name) raw.classes ≡ some d
      → Reached raw start d

abbrev Subset : List Bytes → List Bytes → Type 0
Subset u v = (f : Bytes) → is_visited f u ≡ true → is_visited f v ≡ true

-- A class waits in a queue.
abbrev Waits : RawClass → List Queued → Type 0
Waits d queue = (i : Queued) × Memᴰ i queue × (i.class ≡ d)

-- What the loop over the parents does: it marks them all, and what it marks for the first time waits.
record Entered (raw : Raw) (names visited visited' : List Bytes) (queue queue' : List Queued)
    : Type 0 where
  grows : Subset visited visited'
  marks : (name : Bytes) → Memᴰ name names → is_visited (to_lower name) visited' ≡ true
  waits : (i : Queued) → Memᴰ i queue → Memᴰ i queue'
  fresh :
      (f : Bytes)
      → is_visited f visited' ≡ true
      → (is_visited f visited ≡ true)
        ⊎ ((d : RawClass) × (find_class f raw.classes ≡ some d) × Waits d queue')

-- A class of which all is recorded, and whose parents are marked.
record Settled (raw : Raw) (marked : List Bytes) (out : Contributions) (c : RawClass) : Type 0 where
  recorded : (attr : Bytes) → Demands raw c attr → is_mandatory out attr ≡ true
  above : (name : Bytes) → Memᴰ name (parents c) → is_visited (to_lower name) marked ≡ true

-- What the walk leaves: the names that it has marked in the end, and that everything it had still to
-- do is done.
record Walked (raw : Raw) (visited : List Bytes) (queue : List Queued) (into out : Contributions)
    : Type 0 where
  marked : List Bytes
  grows : Subset visited marked
  keeps : (attr : Bytes) → is_mandatory into attr ≡ true → is_mandatory out attr ≡ true
  queued : (i : Queued) → Memᴰ i queue → Settled raw marked out i.class
  fresh :
      (f : Bytes)
      → is_visited f marked ≡ true
      → (is_visited f visited ≡ true)
        ⊎ ((d : RawClass) × (find_class f raw.classes ≡ some d) × Settled raw marked out d)
