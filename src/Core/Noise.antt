-- ===== src/Core/Noise.antt =====
-- An envelope is found behind whatever noise the process printed before and after it.
use go_adpwsh.Prelude.{
  ℕ, ◌+◌, ◌≡◌, ◌≢◌, ap, String, Option, some, ◌++◌, arith, ltb_of_le, length, length-append, All,
  append_assoc,
}
use go_adpwsh.Prelude.Text.{Bytes, has_prefix, index, slice, has_prefix-append}
use go_adpwsh.Prelude.Search.{index-extend, index-skip, index_zero, slice_middle}
use go_adpwsh.Prelude.Json.{ℤ, pos, Value}
use go_adpwsh.Core.Errors.{Kind}
use go_adpwsh.Core.Envelope.{sentinel_begin, sentinel_end, parse_body, between, parse_envelope}

-- What a process prints: noise, the begin marker, the body, the end marker, more noise.
abbrev pub framed : Bytes → Bytes → Bytes → Bytes
framed noise body rest = noise ++ (sentinel_begin ++ (body ++ (sentinel_end ++ rest)))

-- The end marker is not found before the end of the body.
abbrev pub IsBody : Bytes → Type 0
IsBody body = index (body ++ sentinel_end) sentinel_end ≡ some (length body)

module _ (noise body rest : Bytes) (quiet : All (λ c. c ≢ b'<') noise) where
  index-begin : index (framed noise body rest) sentinel_begin ≡ some (length noise + 0)
  index-begin =
      index-skip noise b'<' _ _ 0 quiet
        (index_zero _ sentinel_begin (has_prefix-append sentinel_begin _))

  after_begin :
      (s : Bytes) (i : ℕ)
      → index s sentinel_end ≡ some i
      → index (sentinel_begin ++ s) sentinel_end ≡ some (16 + i)
  unfolding index has_prefix
  after_begin s i h = rw h (ap some (omega arith))

  index-end :
      IsBody body
      → index (framed noise body rest) sentinel_end ≡ some (length noise + (16 + length body))
  index-end h = index-skip noise b'<' _ _ _ quiet (
      after_begin _ _
        (rw (← append_assoc body sentinel_end rest) (index-extend _ sentinel_end rest _ h)))

  slice-body :
      slice (framed noise body rest) (length noise + 0 + 16) (length noise + (16 + length body))
      ≡ some body
  slice-body =
      rw (← append_assoc noise sentinel_begin (body ++ (sentinel_end ++ rest)), lo, hi)
        (slice_middle (noise ++ sentinel_begin) body (sentinel_end ++ rest))
    where
      lo : length noise + 0 + 16 ≡ length (noise ++ sentinel_begin)
      lo = omega (arith, length-append noise sentinel_begin)

      hi : length noise + (16 + length body) ≡ length (noise ++ sentinel_begin) + length body
      hi = omega (arith, length-append noise sentinel_begin)

  -- Output that begins with bytes other than '<' and in which the end marker follows the body is
  -- read as the body, with what stands before and after the markers ignored.
  pub parse_envelope-framed :
      (json : Bytes → Option Value) (classify_code : ℤ → Option Kind) (op : String) (stderr : Bytes)
      → IsBody body
      → parse_envelope json classify_code op
          (record { stdout = framed noise body rest; stderr = stderr; exit_code = pos 0 })
        ≡ parse_body json classify_code op (some body)
  unfolding parse_envelope between
  parse_envelope-framed json classify_code op stderr h =
      rw
        (
          index-begin,
          index-end h,
          ltb_of_le (length noise + (16 + length body)) (length noise + 0) (omega arith),
        )
        (ap (parse_body json classify_code op) slice-body)
