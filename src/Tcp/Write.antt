-- ===== src/Tcp/Write.antt =====
-- `Write` of launcher/launcher/TcpChannel.cpp, and that `Read` at the other side gets what it sent.
use vecoda.Base.{
  ℕ, zero, suc, ◌-◌, ◌≡◌, ◌<◌, ◌≤◌, refl, List, [], ◌∷◌, ◌++◌, Text, length, arith, map, take, drop,
  if◌then◌else◌, sym, ap, ◌∙◌,
}
use mathlib.Core.Path.{subst}
use vecoda.Tcp.{Reply, chunk, TcpChannel, disconnect, got, read}
use vecoda.Tcp.Chunks.{joined, Serves, open_with, read-Serves}

-- What a call of `send` answers: `SOCKET_ERROR`, or how many bytes it took.
pub data Sending : Type 0 where
  refused : Sending
  accepted : ℕ → Sending

-- What a write gives; `blocked` is a call of `send` that has not come back.
pub data Written : Type 0 where
  written failed blocked : Written

-- The loop of `Write`, from the bytes that are still to be sent; with the bytes that were sent.
unfoldable pub write_loop : Text → List Sending → TcpChannel → TcpChannel × Written × Text
unfolding disconnect
write_loop [] sendings c = (c, written, [])
write_loop (b ∷ bs) [] c = (c, blocked, [])
write_loop (b ∷ bs) (refused ∷ sendings) c = (disconnect c, failed, [])
write_loop (b ∷ bs) (accepted n ∷ sendings) c =
    let (d, outcome, sent) = write_loop (drop n (b ∷ bs)) sendings c in
    (d, outcome, take n (b ∷ bs) ++ sent)

unfoldable pub write : Text → List Sending → TcpChannel → TcpChannel × Written × Text
unfolding write_loop
write bytes sendings c = if c.connected then write_loop bytes sendings c else (c, failed, [])

-- How many bytes `send` may take at a time of `n` in all: no more than are left.
abbrev pub Accepts : ℕ → List ℕ → Type 0
Accepts n [] = n ≡ 0
Accepts n (k ∷ ks) = (0 < n) × (k ≤ n) × Accepts (n - k) ks

length-drop : (n : ℕ) (t : Text) → length (drop n t) ≡ length t - n
length-drop zero t = omega arith
length-drop (suc n) [] = omega arith
length-drop (suc n) (b ∷ bs) = omega (arith, length-drop n bs)

take-drop : (n : ℕ) (t : Text) → take n t ++ drop n t ≡ t
take-drop zero t = refl
take-drop (suc n) [] = refl
take-drop (suc n) (b ∷ bs) = ap (λ t. b ∷ t) (take-drop n bs)

write_loop-Accepts :
    (bytes : Text) (ns : List ℕ) (c : TcpChannel)
    → Accepts (length bytes) ns
    → write_loop bytes (map accepted ns) c ≡ (c, written, bytes)
unfolding write_loop
write_loop-Accepts [] [] c v = refl
write_loop-Accepts [] (k ∷ ks) c v = absurd (omega (arith, v.0))
write_loop-Accepts (b ∷ bs) [] c v = absurd (omega (arith, v))
write_loop-Accepts (b ∷ bs) (k ∷ ks) c v =
    let left = subst (λ n. Accepts n ks) (sym (length-drop k (b ∷ bs))) v.2 in
    let rest = write_loop-Accepts (drop k (b ∷ bs)) ks c left in
    rw rest (ap (λ t. (c, written, t)) (take-drop k (b ∷ bs)))

-- Bytes that are written to a connected channel, in whatever pieces `send` takes them, are all sent,
-- in their order; and a read of as many bytes at the other side, in whatever pieces what was sent
-- comes there, gets just these bytes. Neither channel is changed, and what comes behind them is left.
pub read-write :
    (bytes : Text) (ns : List ℕ) (ts : List Text) (later : List Reply) (near far : Text)
    → Accepts (length bytes) ns
    → Serves (length bytes) ts
    → joined ts ≡ (write bytes (map accepted ns) (open_with near)).2
    → (write bytes (map accepted ns) (open_with near) ≡ (open_with near, written, bytes))
      × (read (length bytes) (map chunk ts ++ later) (open_with far)
          ≡ (open_with far, got bytes, later))
unfolding write
read-write bytes ns ts later near far v w arrives =
    let sent = write_loop-Accepts bytes ns (open_with near) v in
    let same : joined ts ≡ bytes = arrives ∙ ap (λ r. r.2) sent in
    (
      sent,
      (read-Serves (length bytes) ts later far w).0 ∙ ap (λ t. (open_with far, got t, later)) same,
    )
