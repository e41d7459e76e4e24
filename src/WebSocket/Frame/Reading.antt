-- ===== src/WebSocket/Frame/Reading.antt =====
-- The reads of `read_frame` in src/websocket.cpp, over any cut of the payload into chunks.
use sandrun.Common.{
  ℕ, suc, ◌-◌, ◌^◌, ◌<◌, false, [], ◌∷◌, ◌++◌, ◌≡◌, refl, arith, some, Bytes, length, is_empty, All,
  length-append,
}
use sandrun.WebSocket.Frame.{Socket, read_all, length_bytes, join_bytes}

-- No read of such a chunk reports the end of the stream.
abbrev pub Filled : Socket → Type 0
Filled = All λ chunk. is_empty chunk ≡ false

abbrev pub joined : Socket → Bytes
joined [] = []
joined (chunk ∷ chunks) = chunk ++ joined chunks

pub read_all-joined :
    (chunks later : Socket)
    → Filled chunks
    → read_all (length (joined chunks)) (chunks ++ later) ≡ some (joined chunks, later)
unfolding read_all
read_all-joined [] [] h = refl
read_all-joined [] (c ∷ later) h = ground arith
read_all-joined ([] ∷ chunks) later h = cc (h.0)
read_all-joined ((b ∷ chunk) ∷ chunks) later h =
    let e : suc (length (chunk ++ joined chunks)) - suc (length chunk) ≡ length (joined chunks) =
      omega (arith, length-append chunk (joined chunks)) in
    ground (arith, e, length-append chunk (joined chunks), read_all-joined chunks later h.1)

pub length_bytes_lem : (len : ℕ) → len < 2 ^ 64 → join_bytes 0 (length_bytes 8 len) ≡ len
unfolding join_bytes length_bytes
length_bytes_lem len h = omega arith
