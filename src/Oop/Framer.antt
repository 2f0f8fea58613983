-- ===== src/Oop/Framer.antt =====
-- internal/oop/framer.go. The data behind the position that the loop of splitOutOfProcPackets has
-- reached is its argument here, and the reader below a Framer is the list of what its reads return.
use go_adpwsh.Prelude.{
  ℕ, zero, suc, ◌+◌, String, Bool, false, ◌||◌, Option, none, some, List, [], ◌∷◌, ◌++◌,
  if◌then◌else◌, ltb, length, drop, take,
}
use go_adpwsh.Prelude.Text.{Bytes, codes, has_prefix, index}

-- bytes.IndexByte(s, '<')
unfoldable pub index_open : Bytes → Option ℕ
unfolding index
index_open s = index s (b'<' ∷ [])

-- What one turn of the loop does: it ends with the data that remain, or finds an element and goes on
-- behind it.
pub data Turn : Type 0 where
  stop : Bytes → Turn
  packet : Bytes → Bytes → Turn

abbrev pub cut : ℕ → Bytes → Turn
cut n d = packet (take n d) (drop n d)

-- nextStart != -1 && nextStart < endPos, where the other element is looked for behind the first byte
abbrev pub opens_before : Option ℕ → ℕ → Bool
opens_before none end = false
opens_before (some next) end = ltb (next + 1) end

unfoldable pub is_data : Bytes → Bool
unfolding has_prefix
is_data d = has_prefix d (codes "<Data ") || has_prefix d (codes "<Data>")

-- An element that closes itself, unless another one opens before it ends.
unfoldable pub close : ℕ → Bytes → Turn
unfolding index_open
close end d = if opens_before (index_open (drop 1 d)) end then stop d else cut end d

-- The element at the front of the data.
unfoldable pub element : Bytes → Turn
unfolding is_data index close
element d =
    if is_data d
    then elim (index d (codes "</Data>")) [ none ↦ stop d | some end ↦ cut (end + 7) d ]
    else elim (index (take 256 d) (codes "/>")) [ none ↦ stop d | some end ↦ close (end + 2) d ]

unfoldable pub turn : Bytes → Turn
unfolding index_open element
turn d = elim (index_open d) [ none ↦ stop d | some start ↦ element (drop start d) ]

-- The loop, on fuel: each turn that goes on shortens the data.
unfoldable pub split : ℕ → Bytes → Bytes × Bytes
unfolding turn
split zero d = ([], d)
split (suc n) d = elim (turn d) [
  | stop rest ↦ ([], rest)
  | packet out rest ↦ (out ++ b'\n' ∷ (split n rest).0, (split n rest).1)
]

-- splitOutOfProcPackets: the packets, each with a newline behind it, and what remains.
unfoldable pub split_packets : Bytes → Bytes × Bytes
unfolding split
split_packets d = split (length d) d

-- What a read of the reader below returns: bytes, and an error or nil.
pub record Chunk : Type 0 where
  pub bytes : Bytes
  pub fault : Option String

pub record Framer : Type 0 where
  pub buf : Bytes
  pub carry : Bytes
  pub pending : Option String

-- NewFramer
abbrev pub new_framer : Framer
new_framer = record { buf = []; carry = []; pending = none }

-- How the loop of Read ends: with bytes in the buffer, with no bytes and an error or nil, or not at
-- all as long as the reader below has nothing.
pub data Filled : Type 0 where
  ready : Filled
  ended : Option String → Filled
  blocked : Filled

-- if err != nil { f.pendingErr = err }
abbrev pub note : Option String → Framer → Framer
note none f = f
note (some e) f = record f { pending = some e }

-- The bytes of a read, appended to the carry and split again.
unfoldable pub receive : Chunk → Framer → Framer
unfolding split_packets
receive c f =
    let out = split_packets (f.carry ++ c.bytes) in
    note c.fault (record f { buf = out.0; carry = out.1 })

-- The loop of Read: what is left of the reads below is returned with the outcome.
unfoldable pub fill : Framer → List Chunk → Filled × Framer × List Chunk
unfolding receive
fill f [] = elim f.buf [
  | b ∷ bs ↦ (ready, f, [])
  | [] ↦ elim f.pending [
    | some e ↦ (ended (some e), record f { pending = none }, [])
    | none ↦ (blocked, f, [])
  ]
]
fill f (c ∷ reads) =
    let next = fill (receive c f) reads in
    elim f.buf [
      | b ∷ bs ↦ (ready, f, c ∷ reads)
      | [] ↦ elim f.pending [
        | some e ↦ (ended (some e), record f { pending = none }, c ∷ reads)
        | none ↦ elim c.bytes [ [] ↦ (ended c.fault, f, reads) | b ∷ bs ↦ next ]
      ]
    ]

-- The bytes that Read copies, and the error that it returns with none; `none` is a call that waits.
pub record Copied : Type 0 where
  pub bytes : Bytes
  pub fault : Option String

abbrev pub copied : ℕ → Filled → Framer → Option Copied × Framer
copied size ready f =
    (some (record { bytes = take size f.buf; fault = none }), record f { buf = drop size f.buf })
copied size (ended e) f = (some (record { bytes = []; fault = e }), f)
copied size blocked f = (none, f)

-- Read, with a slice of a size
unfoldable pub read : ℕ → Framer → List Chunk → Option Copied × Framer × List Chunk
unfolding fill
read size f reads =
    let out = fill f reads in ((copied size out.0 out.1).0, (copied size out.0 out.1).1, out.2)
