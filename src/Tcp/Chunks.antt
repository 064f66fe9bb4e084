-- ===== src/Tcp/Chunks.antt =====
-- However the bytes arrive in pieces, the reads put them together.
use vecoda.Base.{
  ℕ, zero, suc, ◌-◌, ◌≡◌, ◌<◌, ◌≤◌, refl, true, false, List, [], ◌∷◌, ◌++◌, ◌==◌, Text, length,
  length-append, arith, All, map, ap, sym, ◌∙◌, replicate,
}
use mathlib.Core.List.{append_assoc, append-nil}
use mathlib.Core.Path.{subst}
use vecoda.Wire.{from_bytes}
use vecoda.Tcp.{
  Reply, failed, chunk, TcpChannel, got, prepend, read_loop, read, value, pending, take_chunk,
  nread_uint32, poll_all,
}

abbrev pub joined : List Text → Text
joined [] = []
joined (t ∷ ts) = t ++ joined ts

-- Pieces that `recv` may give for `n` bytes: none is empty, and none is longer than what is asked
-- for, which is what is still wanted.
abbrev pub Serves : ℕ → List Text → Type 0
Serves n [] = n ≡ 0
Serves n (t ∷ ts) = (0 < length t) × (length t ≤ n) × Serves (n - length t) ts

read_loop-Serves :
    (n : ℕ) (ts : List Text) (later : List Reply) (c : TcpChannel)
    → Serves n ts
    → (read_loop n (map chunk ts ++ later) c ≡ (c, got (joined ts), later))
      × (length (joined ts) ≡ n)
unfolding read_loop prepend
read_loop-Serves zero [] later c v = (refl, refl)
read_loop-Serves (suc n) [] later c v = absurd (ground arith)
read_loop-Serves zero (t ∷ ts) later c v = absurd (omega (arith, v.0, v.1))
read_loop-Serves (suc n) ([] ∷ ts) later c v = absurd (omega (arith, v.0))
read_loop-Serves (suc n) ((b ∷ bs) ∷ ts) later c v =
    let (e, len) =
      read_loop-Serves (n - length bs) ts later c (subst (λ k. Serves k ts) (omega arith) v.2) in
    (rw e refl, omega (arith, length-append (b ∷ bs) (joined ts), v.1, len))

-- A connected channel, between two polls.
abbrev pub open_with : Text → TcpChannel
open_with bytes = record { connected = true; nread_buffer = bytes }

-- A connected channel reads exactly the bytes wanted, in whatever pieces they come, and leaves the
-- replies behind them for the next read.
pub read-Serves :
    (n : ℕ) (ts : List Text) (later : List Reply) (buffer : Text)
    → Serves n ts
    → (read n (map chunk ts ++ later) (open_with buffer)
        ≡ (open_with buffer, got (joined ts), later))
      × (length (joined ts) ≡ n)
unfolding read
read-Serves n ts later buffer v = read_loop-Serves n ts later (open_with buffer) v

-- A poll that brings nothing yet, or a piece.
abbrev pub IsQuiet : Reply → Type 0
IsQuiet (failed block) = block ≡ true
IsQuiet (chunk bytes) = 0 < length bytes

abbrev pub arrived : List Reply → Text
arrived [] = []
arrived (failed block ∷ rs) = arrived rs
arrived (chunk bytes ∷ rs) = bytes ++ arrived rs

poll_all-pending :
    (rs : List Reply) (buffer : Text)
    → All IsQuiet rs
    → length (buffer ++ arrived rs) < 4
    → poll_all rs (open_with buffer)
      ≡ (open_with (buffer ++ arrived rs), replicate (length rs) pending)
unfolding poll_all nread_uint32 take_chunk
poll_all-pending [] buffer q h = ap (λ t. (open_with t, [])) (sym (append-nil buffer))
poll_all-pending (failed true ∷ rs) buffer q h =
    ap (λ r. (r.0, pending ∷ r.1)) (poll_all-pending rs buffer q.1 h)
poll_all-pending (failed false ∷ rs) buffer q h = absurd (ground arith)
poll_all-pending (chunk [] ∷ rs) buffer q h = absurd (omega (arith, q.0))
poll_all-pending (chunk (b ∷ bs) ∷ rs) buffer q h =
    let together = append_assoc buffer (b ∷ bs) (arrived rs) in
    let below : length (buffer ++ b ∷ bs) < 4 =
      omega (arith, h, ap length together, length-append (buffer ++ b ∷ bs) (arrived rs)) in
    let more : (length (buffer ++ b ∷ bs) == 4) ≡ false = ground arith in
    let short : length ((buffer ++ b ∷ bs) ++ arrived rs) < 4 =
      subst (λ t. length t < 4) (sym together) h in
    rw more (
      ap (λ r. (r.0, pending ∷ r.1)) (poll_all-pending rs (buffer ++ b ∷ bs) q.1 short)
      ∙ ap (λ t. (open_with t, pending ∷ replicate (length rs) pending)) together)

-- Polls of a connected channel with nothing kept give nothing until the fourth byte is there, and
-- then the number that the four bytes are, in whatever pieces they come, and with any number of
-- polls between them that find nothing. Nothing is kept then.
pub poll_all-value :
    (rs : List Reply) (bytes : Text)
    → All IsQuiet rs
    → 0 < length bytes
    → length (arrived rs ++ bytes) ≡ 4
    → let (c, polled) = poll_all rs (open_with []) in
      (polled ≡ replicate (length rs) pending)
      × (nread_uint32 (chunk bytes) c ≡ (open_with [], value (from_bytes (arrived rs ++ bytes))))
unfolding nread_uint32 take_chunk
poll_all-value rs [] q h four = absurd (omega (arith, h))
poll_all-value rs (b ∷ bs) q h four =
    let e = poll_all-pending rs [] q (omega (arith, four, length-append (arrived rs) (b ∷ bs))) in
    let full : (length (arrived rs ++ b ∷ bs) == 4) ≡ true = ground arith in
    (ap (λ r. r.1) e, rw (ap (λ r. r.0) e, full))
