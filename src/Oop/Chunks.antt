-- ===== src/Oop/Chunks.antt =====
-- The packets of a stream do not depend on how it is cut into reads.
use go_adpwsh.Prelude.{
  ℕ, ◌+◌, ◌≤◌, ◌<◌, ◌≡◌, refl, ◌∙◌, Bool, true, false, ◌||◌, none, some, [], ◌∷◌, ◌++◌, length,
  drop, take, arith, ltb_of_le, Bool-cases, Option-cases, inl, inr, ◌⊎◌,
}
use go_adpwsh.Prelude.Text.{Bytes, codes, has_prefix, index}
use go_adpwsh.Oop.Framer.{
  index_open, close, Turn, stop, packet, cut, opens_before, is_data, element,
}
use go_adpwsh.Oop.Search.{
  has_prefix-append, index_fits, index-append, index-late, take-short, drop-short, take-grows,
  length-take-le,
}

or_true : (b : Bool) → (b || true) ≡ true
or_true true = refl
or_true false = refl

-- Data that are too short to show that they are a Data element do not close an element either.
is_data-grows :
    (d t : Bytes)
    → is_data d ≡ false
    → is_data (d ++ t) ≡ true
    → index (take 256 d) (codes "/>") ≡ none
unfolding is_data has_prefix index
is_data-grows [] t apart told = refl
is_data-grows (a ∷ []) t apart told = ground arith
is_data-grows (a ∷ b ∷ []) t apart told = ground arith
is_data-grows (a ∷ b ∷ c ∷ []) t apart told = ground arith
is_data-grows (a ∷ b ∷ c ∷ d ∷ []) t apart told = ground arith
is_data-grows (a ∷ b ∷ c ∷ d ∷ e ∷ []) t apart told = ground arith
is_data-grows (a ∷ b ∷ c ∷ d ∷ e ∷ f ∷ s) t apart told = ground arith

opens_before-grows :
    (s t : Bytes) (end : ℕ)
    → end ≤ length s + 1
    → opens_before (index_open (s ++ t)) end ≡ opens_before (index_open s) end
unfolding index_open
opens_before-grows s t end h = elim (Option-cases (index s (b'<' ∷ []))) [
  | inr (k, found) ↦ rw (found, index-append s (b'<' ∷ []) t k found) refl
  | inl missing ↦ elim (Option-cases (index (s ++ t) (b'<' ∷ []))) [
    | inl still ↦ rw (missing, still) refl
    | inr (j, later) ↦
        rw (missing, later)
          (ltb_of_le (j + 1) end (omega (arith, index-late s b'<' t j missing later)))
  ]
]

is_data-append : (d t : Bytes) → is_data d ≡ true → is_data (d ++ t) ≡ true
unfolding is_data
is_data-append d t h = elim (Bool-cases (has_prefix d (codes "<Data "))) [
  | inl spaced ↦ rw (has_prefix-append d (codes "<Data ") t spaced) refl
  | inr other ↦
      rw (has_prefix-append d (codes "<Data>") t (ground (arith, other, h)))
        (or_true (has_prefix (d ++ t) (codes "<Data ")))
]

-- The turn on longer data that go on as they did.
abbrev pub grow : Bytes → Turn → Turn
grow t (stop rest) = stop (rest ++ t)
grow t (packet out rest) = packet out (rest ++ t)

abbrev pub is_packet : Turn → Bool
is_packet (stop rest) = false
is_packet (packet out rest) = true

cut-grows : (n : ℕ) (d t : Bytes) → n ≤ length d → cut n (d ++ t) ≡ grow t (cut n d)
cut-grows n d t h = rw (take-short n d t h, drop-short n d t h) refl

length-tail : (d : Bytes) → length d ≤ length (drop 1 d) + 1
length-tail [] = omega arith
length-tail (c ∷ d) = omega arith

opens_after :
    (n : ℕ) (d t : Bytes)
    → 1 ≤ n
    → n ≤ length d
    → opens_before (index_open (drop 1 (d ++ t))) n ≡ opens_before (index_open (drop 1 d)) n
opens_after n d t positive h =
    rw (drop-short 1 d t (omega (arith, positive, h)))
      (opens_before-grows (drop 1 d) t n (omega (arith, h, length-tail d)))

-- The end of an element is found in the same place in longer data, which are a Data element only if
-- the shorter ones are.
closes-grows :
    (d t : Bytes) (k : ℕ)
    → is_data d ≡ false
    → index (take 256 d) (codes "/>") ≡ some k
    → (is_data (d ++ t) ≡ false) × (index (take 256 (d ++ t)) (codes "/>") ≡ some k)
closes-grows d t k apart found =
    let longer = take-grows 256 d t in
    (apart', rw longer.1 (index-append (take 256 d) (codes "/>") longer.0 k found))
  where
    apart' : is_data (d ++ t) ≡ false
    apart' = elim (Bool-cases (is_data (d ++ t))) [
      | inl told ↦ let never = is_data-grows d t apart told in cc
      | inr other ↦ other
    ]

close-grows :
    (n : ℕ) (d t : Bytes)
    → 1 ≤ n
    → n ≤ length d
    → is_packet (close n d) ≡ true
    → close n (d ++ t) ≡ grow t (close n d)
unfolding close
close-grows n d t positive h h' = elim (Bool-cases (opens_before (index_open (drop 1 d)) n)) [
  | inl opens ↦ ground (arith, opens)
  | inr shut ↦ rw (shut, opens_after n d t positive h ∙ shut) (cut-grows n d t h)
]

pub element-grows :
    (d t : Bytes) → is_packet (element d) ≡ true → element (d ++ t) ≡ grow t (element d)
unfolding element
element-grows d t h = elim (Bool-cases (is_data d)) [
  | inl told ↦ elim (Option-cases (index d (codes "</Data>"))) [
    | inl missing ↦ ground (arith, told, missing)
    | inr (k, found) ↦
        rw (told, found, is_data-append d t told, index-append d (codes "</Data>") t k found)
          (cut-grows (k + 7) d t (index_fits d (codes "</Data>") k found))
  ]
  | inr apart ↦ elim (Option-cases (index (take 256 d) (codes "/>"))) [
    | inl missing ↦ ground (arith, apart, missing)
    | inr (k, found) ↦
        let longer = closes-grows d t k apart found in
        let fits = index_fits (take 256 d) (codes "/>") k found in
        rw (apart, found, longer.0, longer.1)
          (close-grows (k + 2) d t (omega arith) (omega (arith, fits, length-take-le 256 d))
            (ground (arith, h, apart, found)))
  ]
]

-- The element at the front is left where it is, or cut off.
pub element-cases :
    (d : Bytes)
    → (element d ≡ stop d) ⊎ ((n : ℕ) × (0 < n) × (n ≤ length d) × (element d ≡ cut n d))
unfolding element close
element-cases d = elim (Bool-cases (is_data d)) [
  | inl told ↦ elim (Option-cases (index d (codes "</Data>"))) [
    | inl missing ↦ inl (rw (told, missing, element) refl)
    | inr (k, found) ↦
        let fits = index_fits d (codes "</Data>") k found in
        inr (k + 7, omega arith, fits, rw (told, found, element) refl)
  ]
  | inr apart ↦ elim (Option-cases (index (take 256 d) (codes "/>"))) [
    | inl missing ↦ inl (rw (apart, missing, element) refl)
    | inr (k, found) ↦
        let fits = index_fits (take 256 d) (codes "/>") k found in
        elim (Bool-cases (opens_before (index_open (drop 1 d)) (k + 2))) [
          | inl opens ↦ inl (rw (apart, found, opens, element, close) refl)
          | inr shut ↦ inr (
            k + 2,
            omega arith,
            omega (arith, fits, length-take-le 256 d),
            rw (apart, found, shut, element, close) refl,
          )
        ]
  ]
]
