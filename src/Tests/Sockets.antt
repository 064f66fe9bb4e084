-- ===== src/Tests/Sockets.antt =====
-- The theorems on the TCP channel, at bytes that come and go in two pieces.
use vecoda.Base.{◌≡◌, refl, true, List, [], ◌∷◌, ◌++◌, Text, map, replicate, arith}
use vecoda.Wire.{from_bytes}
use vecoda.Tcp.{Reply, failed, chunk, got, read, pending, value, nread_uint32, poll_all}
use vecoda.Tcp.Write.{accepted, written, write, write_loop, read-write}
use vecoda.Tcp.Chunks.{open_with, arrived, poll_all-value}

abbrev pieces : List Text
pieces = (7 ∷ []) ∷ (0 ∷ 0 ∷ 0 ∷ []) ∷ []

abbrev polls : List Reply
polls = chunk (7 ∷ []) ∷ failed true ∷ []

poll_all-value_example :
    let (c, polled) = poll_all polls (open_with []) in
    (polled ≡ replicate 2 pending)
    × (nread_uint32 (chunk (0 ∷ 0 ∷ 0 ∷ [])) c
        ≡ (open_with [], value (from_bytes (arrived polls ++ 0 ∷ 0 ∷ 0 ∷ []))))
poll_all-value_example =
    poll_all-value polls (0 ∷ 0 ∷ 0 ∷ []) (omega arith, (refl, tt)) (omega arith) refl

-- A number that is sent in two pieces, and comes in two others.
read-write_example :
    (write (7 ∷ 0 ∷ 0 ∷ 0 ∷ []) (map accepted (3 ∷ 1 ∷ [])) (open_with [])
      ≡ (open_with [], written, 7 ∷ 0 ∷ 0 ∷ 0 ∷ []))
    × (read 4 (map chunk pieces ++ []) (open_with [])
        ≡ (open_with [], got (7 ∷ 0 ∷ 0 ∷ 0 ∷ []), []))
unfolding write write_loop
read-write_example =
    read-write (7 ∷ 0 ∷ 0 ∷ 0 ∷ []) (3 ∷ 1 ∷ []) pieces [] [] []
      (omega arith, omega arith, (omega arith, omega arith, refl))
      (omega arith, omega arith, (omega arith, omega arith, refl)) refl
