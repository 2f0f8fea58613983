-- ===== src/Oop/Reading.antt =====
-- What the Reads of a Framer deliver, next to the whole stream that it received.
use go_adpwsh.Prelude.{
  ℕ, ◌≡◌, refl, sym, ap, ◌∙◌, String, Option, none, some, List, [], ◌∷◌, ◌++◌, append_assoc,
  append-nil, drop, take, take-append-drop, List-cases, Option-cases, inl, inr,
}
use go_adpwsh.Prelude.Text.{Bytes}
use go_adpwsh.Oop.Framer.{
  Chunk, Framer, note, receive, Filled, ready, ended, blocked, fill, Copied, copied, read,
  split_packets,
}
use go_adpwsh.Oop.Stream.{split_packets-append}

-- The bytes of a list of reads.
abbrev pub all_bytes : List Chunk → Bytes
all_bytes [] = []
all_bytes (c ∷ cs) = c.bytes ++ all_bytes cs

-- What was delivered and what is in the buffer are the packets of the stream received, and the
-- carry is what they leave over.
abbrev pub Frames : Framer → Bytes → Bytes → Type 0
Frames f received delivered =
    (delivered ++ f.buf ≡ (split_packets received).0) × (f.carry ≡ (split_packets received).1)

abbrev pub delivered_by : Option Copied → Bytes
delivered_by none = []
delivered_by (some c) = c.bytes

note-Frames :
    (e : Option String) (f : Framer) (received delivered : Bytes)
    → Frames f received delivered
    → Frames (note e f) received delivered
note-Frames none f received delivered h = h
note-Frames (some e) f received delivered h = h

receive-Frames :
    (c : Chunk) (f : Framer) (received delivered : Bytes)
    → f.buf ≡ []
    → Frames f received delivered
    → Frames (receive c f) (received ++ c.bytes) delivered
unfolding receive
receive-Frames c f received delivered empty (sent, left) =
    let whole = split_packets-append received c.bytes in
    let sent' : delivered ≡ (split_packets received).0 =
      sym (append-nil delivered) ∙ (ap (◌++◌ delivered) (sym empty) ∙ sent) in
    note-Frames c.fault _ (received ++ c.bytes) delivered (
      rw (whole, left)
          (ap (λ b. b ++ (split_packets ((split_packets received).1 ++ c.bytes)).0) sent'),
      rw (whole, left) refl,
    )

-- The loop of Read takes some of the reads below and keeps the invariant.
abbrev Takes : Framer → List Chunk → Framer → List Chunk → Bytes → Bytes → Type 0
Takes f reads f' reads' received delivered =
    (taken : List Chunk) × (reads ≡ taken ++ reads')
    × Frames f' (received ++ all_bytes taken) delivered

fill-ready :
    (f : Framer) (reads : List Chunk) (b : ℕ) (bs : Bytes)
    → f.buf ≡ b ∷ bs
    → fill f reads ≡ (ready, f, reads)
unfolding fill
fill-ready f [] b bs h = simp (h, fill)
fill-ready f (c ∷ reads) b bs h = simp (h, fill)

fill-pending :
    (f : Framer) (reads : List Chunk) (e : String)
    → f.buf ≡ []
    → f.pending ≡ some e
    → fill f reads ≡ (ended (some e), record f { pending = none }, reads)
unfolding fill
fill-pending f [] e h h' = simp (h, h', fill)
fill-pending f (c ∷ reads) e h h' = simp (h, h', fill)

fill-blocked : (f : Framer) → f.buf ≡ [] → f.pending ≡ none → fill f [] ≡ (blocked, f, [])
unfolding fill
fill-blocked f h h' = simp (h, h', fill)

fill-empty :
    (f : Framer) (c : Chunk) (reads : List Chunk)
    → f.buf ≡ []
    → f.pending ≡ none
    → c.bytes ≡ []
    → fill f (c ∷ reads) ≡ (ended c.fault, f, reads)
unfolding fill
fill-empty f c reads h h' h'' = simp (h, h', h'', fill)

fill-next :
    (f : Framer) (c : Chunk) (reads : List Chunk) (b : ℕ) (bs : Bytes)
    → f.buf ≡ []
    → f.pending ≡ none
    → c.bytes ≡ b ∷ bs
    → fill f (c ∷ reads) ≡ fill (receive c f) reads
unfolding fill
fill-next f c reads b bs h h' h'' = simp (h, h', h'', fill)

-- Nothing taken.
stays :
    (f f' : Framer) (reads : List Chunk) (received delivered : Bytes)
    → Frames f' received delivered
    → Takes f reads f' reads received delivered
stays f f' reads received delivered h = ([], refl, rw (append-nil received) h)

-- The loop over the reads that are left keeps the invariant.
abbrev Fills : List Chunk → Bytes → Type 0
Fills reads delivered =
    (f : Framer) (received : Bytes)
    → Frames f received delivered
    → Takes f reads (fill f reads).1 (fill f reads).2 received delivered

-- The cases of the buffer and of the pending error, which are the same at every turn of the loop.
Fills-turn :
    (reads : List Chunk) (delivered : Bytes)
    → ((f : Framer) (received : Bytes)
        → f.buf ≡ []
        → f.pending ≡ none
        → Frames f received delivered
        → Takes f reads (fill f reads).1 (fill f reads).2 received delivered)
    → Fills reads delivered
Fills-turn reads delivered go f received h = elim (List-cases f.buf) [
  | inr (b, bs, full) ↦ rw (fill-ready f reads b bs full) (stays f f reads received delivered h)
  | inl empty ↦ elim (Option-cases f.pending) [
    | inr (e, late) ↦
        rw (fill-pending f reads e empty late)
          (stays f (record f { pending = none }) reads received delivered h)
    | inl clear ↦ go f received empty clear h
  ]
]

fill-Fills : (reads : List Chunk) (delivered : Bytes) → Fills reads delivered
fill-Fills [] delivered = Fills-turn [] delivered (λ f received empty clear h.
    rw (fill-blocked f empty clear) (stays f f [] received delivered h))
fill-Fills (c ∷ reads) delivered = Fills-turn (c ∷ reads) delivered (λ f received empty clear h.
    elim (List-cases c.bytes) [
      | inl nothing ↦
          rw (fill-empty f c reads empty clear nothing)
            (c ∷ [], refl, rw (nothing, append-nil received) h)
      | inr (b, bs, more) ↦
          let rest =
            fill-Fills reads delivered (receive c f) (received ++ c.bytes)
              (receive-Frames c f received delivered empty h) in
          rw (fill-next f c reads b bs empty clear more) (
            c ∷ rest.0,
            ap (◌∷◌ c) rest.1,
            rw (sym (append_assoc received c.bytes (all_bytes rest.0))) rest.2,
          )
    ])

copied-Frames :
    (size : ℕ) (outcome : Filled) (f : Framer) (received delivered : Bytes)
    → Frames f received delivered
    → Frames
        (copied size outcome f).1
        received
        (delivered ++ delivered_by (copied size outcome f).0)
copied-Frames size ready f received delivered (sent, left) = (
  append_assoc delivered (take size f.buf) (drop size f.buf)
      ∙ (ap (◌++◌ delivered) (take-append-drop size f.buf) ∙ sent),
  left,
)
copied-Frames size (ended e) f received delivered (sent, left) =
    (rw (append-nil delivered) sent, left)
copied-Frames size blocked f received delivered (sent, left) =
    (rw (append-nil delivered) sent, left)

-- At every Read of a Framer, of whatever size and however the reads below cut the stream, what has
-- been delivered and what is left in the buffer together are the packets of the stream received so
-- far: packets come whole, once and in order, and what is not a packet yet is carried on.
pub read-Frames :
    (size : ℕ) (f : Framer) (reads : List Chunk) (received delivered : Bytes)
    → Frames f received delivered
    → (taken : List Chunk) × (reads ≡ taken ++ (read size f reads).2)
      × Frames
          (read size f reads).1
          (received ++ all_bytes taken)
          (delivered ++ delivered_by (read size f reads).0)
unfolding read
read-Frames size f reads received delivered h =
    let t = fill-Fills reads delivered f received h in
    (
      t.0,
      t.1,
      copied-Frames size (fill f reads).0 (fill f reads).1 (received ++ all_bytes t.0) delivered
          t.2,
    )
