-- ===== src/Tcp.antt =====
-- launcher/launcher/TcpChannel.cpp: reads from a TCP socket, and writes to it (Write). What a call
-- of `recv` answers is a `Reply`; the socket itself, and its modes, are the system's.
pub mod Chunks
pub mod Write
use vecoda.Base.{
  ℕ, zero, suc, ◌+◌, ◌-◌, Bool, true, false, List, [], ◌∷◌, ◌++◌, Option, none, some, ◌==◌,
  if◌then◌else◌, Text, length,
}
use vecoda.Wire.{from_bytes}

-- `SOCKET_ERROR`, with whether it only says that nothing is there yet, or the bytes received, of
-- which there are none once the other side has closed.
pub data Reply : Type 0 where
  failed : Bool → Reply
  chunk : Text → Reply

-- `nread_buffer` is the part of `nreadBuffer` that is filled, so its length is `nreadCnt`.
pub record TcpChannel : Type 0 where
  pub connected : Bool
  pub nread_buffer : Text

unfoldable pub disconnect : TcpChannel → TcpChannel
disconnect c = record c { connected = false }

-- What a read gives; `waiting` is a call of `recv` that has not come back.
pub data Outcome : Type 0 where
  got : Text → Outcome
  lost waiting : Outcome

unfoldable pub prepend : Text → Outcome → Outcome
prepend bytes (got rest) = got (bytes ++ rest)
prepend bytes lost = lost
prepend bytes waiting = waiting

-- The loop of `Read`, from the number of bytes that are still wanted; with the replies not used.
unfoldable pub read_loop : ℕ → List Reply → TcpChannel → TcpChannel × Outcome × List Reply
unfolding disconnect prepend
read_loop zero replies c = (c, got [], replies)
read_loop (suc n) [] c = (c, waiting, [])
read_loop (suc n) (failed block ∷ replies) c = (disconnect c, lost, replies)
read_loop (suc n) (chunk [] ∷ replies) c = (disconnect c, lost, replies)
read_loop (suc n) (chunk (b ∷ bs) ∷ replies) c =
    let (d, outcome, left) = read_loop (n - length bs) replies c in
    (d, prepend (b ∷ bs) outcome, left)

unfoldable pub read : ℕ → List Reply → TcpChannel → TcpChannel × Outcome × List Reply
unfolding read_loop
read n replies c = if c.connected then read_loop n replies c else (c, lost, replies)

-- What a poll gives: a number, nothing yet, or 0xffffffff for a lost connection.
pub data Polled : Type 0 where
  value : ℕ → Polled
  pending disconnected : Polled

-- The bytes of one poll behind those of the polls before.
unfoldable pub take_chunk : Text → TcpChannel → TcpChannel × Polled
unfolding from_bytes disconnect
take_chunk [] c = (disconnect c, disconnected)
take_chunk (b ∷ bs) c =
    let all = c.nread_buffer ++ b ∷ bs in
    if length all == 4
    then (record c { nread_buffer = [] }, value (from_bytes all))
    else (record c { nread_buffer = all }, pending)

-- `NReadUInt32`, which does not wait.
unfoldable pub nread_uint32 : Reply → TcpChannel → TcpChannel × Polled
unfolding take_chunk
nread_uint32 (failed block) c =
    if c.connected
    then (if block then (c, pending) else (disconnect c, disconnected))
    else (c, disconnected)
nread_uint32 (chunk bytes) c = if c.connected then take_chunk bytes c else (c, disconnected)

-- A row of polls.
unfoldable pub poll_all : List Reply → TcpChannel → TcpChannel × List Polled
unfolding nread_uint32
poll_all [] c = (c, [])
poll_all (r ∷ rs) c = let (d, p) = nread_uint32 r c in let (e, ps) = poll_all rs d in (e, p ∷ ps)
