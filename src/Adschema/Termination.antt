-- ===== src/Adschema/Termination.antt =====
-- internal/adschema/resolve.go: how long the walk of closure takes.
use go_adpwsh.Prelude.{
  ℕ, zero, suc, ◌+◌, ◌≤◌, ◌<◌, ◌≡◌, ◌≢◌, ap, ◌∙◌, inl, inr, true, false, none, some, List, [], ◌∷◌,
  ◌++◌, arith, if◌then◌else◌, length, length-append, Bool-cases, Option-cases,
}
use go_adpwsh.Prelude.Text.{Bytes, to_lower, bytes_eq, eq_of_bytes_eq, bytes_eq_refl}
use go_adpwsh.Adschema.Resolve.{
  RawClass, Raw, Queued, Contributions, out_of_fuel, find_class, is_visited, parents, record_class,
  enqueue, walk, closure,
}

-- The number of classes whose folded name has not been visited.
abbrev unvisited : List Bytes → List RawClass → ℕ
unvisited visited [] = 0
unvisited visited (c ∷ cs) =
    (if is_visited (to_lower c.name) visited then 0 else 1) + unvisited visited cs

unvisited_mono :
    (f : Bytes) (visited : List Bytes) (cs : List RawClass)
    → unvisited (f ∷ visited) cs ≤ unvisited visited cs
unvisited_mono f visited [] = omega arith
unvisited_mono f visited (c ∷ cs) = ground (arith, unvisited_mono f visited cs)

-- The head of the list is the class that is found, or it is found further on.
find_class-head :
    (f : Bytes) (d : RawClass) (cs : List RawClass) (c : RawClass)
    → find_class f (d ∷ cs) ≡ some c
    → find_class f cs ≡ none
    → to_lower d.name ≡ f
unfolding find_class
find_class-head f d cs c found nothing = elim (Bool-cases (bytes_eq (to_lower d.name) f)) [
  | inl same ↦ eq_of_bytes_eq (to_lower d.name) f same
  | inr other ↦ ground (arith, found, nothing, other)
]

unvisited-head :
    (f : Bytes) (visited : List Bytes) (d : RawClass) (cs : List RawClass)
    → to_lower d.name ≡ f
    → is_visited f visited ≡ false
    → unvisited (f ∷ visited) (d ∷ cs) + 1 ≤ unvisited visited (d ∷ cs)
unvisited-head f visited d cs same fresh =
    let here : is_visited (to_lower d.name) visited ≡ false =
      ap (λ x. is_visited x visited) same ∙ fresh in
    let there : bytes_eq f (to_lower d.name) ≡ true = ap (bytes_eq f) same ∙ bytes_eq_refl f in
    ground (arith, unvisited_mono f visited cs, here, there)

unvisited-visit :
    (f : Bytes) (visited : List Bytes) (cs : List RawClass) (c : RawClass)
    → find_class f cs ≡ some c
    → is_visited f visited ≡ false
    → unvisited (f ∷ visited) cs + 1 ≤ unvisited visited cs
unfolding find_class
unvisited-visit f visited [] c found fresh = cc
unvisited-visit f visited (d ∷ cs) c found fresh = elim (Option-cases (find_class f cs)) [
  | inl nothing ↦ unvisited-head f visited d cs (find_class-head f d cs c found nothing) fresh
  | inr (e, it) ↦ let ih = unvisited-visit f visited cs e it fresh in ground (arith, ih)
]

-- What the parents of a class add to the queue they take from the classes not yet visited.
enqueue-le :
    (raw : Raw) (depth : ℕ) (names visited : List Bytes) (queue : List Queued)
    (visited' : List Bytes) (queue' : List Queued)
    → enqueue raw depth names visited queue ≡ some (visited', queue')
    → length queue' + unvisited visited' raw.classes ≤ length queue + unvisited visited raw.classes
unfolding enqueue
enqueue-le raw depth [] visited queue visited' queue' done = ground (arith, done)
enqueue-le raw depth (name ∷ names) visited queue visited' queue' done =
    elim (Bool-cases (is_visited (to_lower name) visited)) [
      | inl old ↦
          let ih =
            enqueue-le raw depth names visited queue visited' queue' (ground (arith, done, old)) in
          ih
      | inr fresh ↦ elim (Option-cases (find_class (to_lower name) raw.classes)) [
        | inl nothing ↦ ground (arith, done, fresh, nothing)
        | inr (parent, it) ↦
            let ih =
              enqueue-le raw depth names (to_lower name ∷ visited)
                (queue ++ record { class = parent; depth = depth } ∷ []) visited' queue'
                (ground (arith, done, fresh, it)) in
            let one = unvisited-visit (to_lower name) visited raw.classes parent it fresh in
            let more = length-append queue (record { class = parent; depth = depth } ∷ []) in
            omega arith
      ]
    ]

walk-ne-out_of_fuel :
    (fuel : ℕ) (raw : Raw) (visited : List Bytes) (queue : List Queued) (into : Contributions)
    → length queue + unvisited visited raw.classes < fuel
    → walk fuel raw visited queue into ≢ out_of_fuel
unfolding walk
walk-ne-out_of_fuel zero raw visited queue into enough = omega arith
walk-ne-out_of_fuel (suc fuel) raw visited [] into enough = cc
walk-ne-out_of_fuel (suc fuel) raw visited (cur ∷ rest) into enough =
    elim (Option-cases (record_class raw cur.depth cur.class into)) [
      | inl partial ↦ ground (arith, partial)
      | inr (into', recorded) ↦
          elim (Option-cases (enqueue raw (cur.depth + 1) (parents cur.class) visited rest)) [
            | inl partial ↦ ground (arith, recorded, partial)
            | inr ((visited', queue'), entered) ↦
                let le =
                  enqueue-le raw (cur.depth + 1) (parents cur.class) visited rest visited' queue'
                    entered in
                let further = walk-ne-out_of_fuel fuel raw visited' queue' into' (omega arith) in
                ground (arith, recorded, entered, further)
          ]
    ]

unvisited-le : (visited : List Bytes) (cs : List RawClass) → unvisited visited cs ≤ length cs
unvisited-le visited [] = omega arith
unvisited-le visited (c ∷ cs) = ground (arith, unvisited-le visited cs)

-- The walk of the closure always comes to an end with a result or the error of a partial fetch,
-- whatever classes there are, also where they name themselves or one another as parents.
pub closure-ne-out_of_fuel : (raw : Raw) (start : RawClass) → closure raw start ≢ out_of_fuel
unfolding closure
closure-ne-out_of_fuel raw start =
    let le = unvisited-le (to_lower start.name ∷ []) raw.classes in
    walk-ne-out_of_fuel (suc (suc (length raw.classes))) raw (to_lower start.name ∷ [])
      (record { class = start; depth = 0 } ∷ []) [] (omega arith)
