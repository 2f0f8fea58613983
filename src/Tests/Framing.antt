-- ===== src/Tests/Framing.antt =====
-- internal/oop with a Data element that two reads cut in the middle, and an element that closes itself.
use go_adpwsh.Prelude.{ℕ, ◌≡◌, refl, none, some, List, [], ◌∷◌, ◌++◌}
use go_adpwsh.Prelude.Text.{Bytes, codes}
use go_adpwsh.Oop.Framer.{Chunk, new_framer, split_packets, read}
use go_adpwsh.Oop.Stream.{resume, split_packets-append}
use go_adpwsh.Oop.Reading.{all_bytes, Frames, delivered_by, read-Frames}

abbrev front : Bytes
front = codes "\n<DataAck Ps='0' /><Data Str"

abbrev back : Bytes
back = codes "eam='x'>AA</Data>"

split_packets-front : split_packets front ≡ (codes "<DataAck Ps='0' />\n", codes "<Data Str")
unfolding split_packets go_adpwsh.Prelude.Text.index go_adpwsh.Prelude.Text.has_prefix
split_packets-front = refl

split_packets-append_example :
    split_packets (front ++ back)
    ≡ resume (split_packets front) (split_packets ((split_packets front).1 ++ back))
split_packets-append_example = split_packets-append front back

abbrev reads : List Chunk
reads = record { bytes = front; fault = none } ∷ record { bytes = back; fault = some "EOF" } ∷ []

read-Frames_example :
    (taken : List Chunk) × (reads ≡ taken ++ (read 8 new_framer reads).2)
    × Frames
        (read 8 new_framer reads).1
        ([] ++ all_bytes taken)
        ([] ++ delivered_by (read 8 new_framer reads).0)
unfolding split_packets
read-Frames_example = read-Frames 8 new_framer reads [] [] (refl, refl)
