-- ===== src/WebSocket/Frame.antt =====
-- `create_frame` and `read_frame` of src/websocket.cpp. A socket is the list of the chunks that
-- are still to arrive; a read takes at most one chunk, and none is left once the peer is gone. A
-- byte `b` has `b & 0x0F` as `b % 16`, `b & 0x7F` as `b % 128` and `x >> 8` as `x / 256`; in
-- `(x << 8) | b` the low byte of the first part is zero, so `|` is `+`.
pub mod Reading
pub mod RoundTrip
use Prim.Native.Nat.{bit_or, bit_xor}
use sandrun.Common.{
  ℕ, zero, suc, ◌+◌, ◌-◌, ◌*◌, ◌/◌, ◌%◌, ◌^◌, Bool, true, false, List, [], ◌∷◌, ◌++◌, Option, none,
  some, Bytes, ◌==◌, ltb, leb, if◌then◌else◌, length, take, drop, is_empty, get_elem?, value_or,
  Outcome, ok, err, bad_alloc,
}

pub data WsOpcode : Type 0 where
  continuation text binary close ping pong : WsOpcode

-- The value of an opcode.
unfoldable pub opcode_byte : WsOpcode → ℕ
opcode_byte continuation = 0x0
opcode_byte text = 0x1
opcode_byte binary = 0x2
opcode_byte close = 0x8
opcode_byte ping = 0x9
opcode_byte pong = 0xA

-- `for (i = n - 1; i >= 0; --i) frame.push_back((len >> (i * 8)) & 0xFF)`.
unfoldable pub length_bytes : ℕ → ℕ → Bytes
length_bytes zero len = []
length_bytes (suc i) len = (len / 2 ^ (i * 8) % 256) ∷ length_bytes i len

unfoldable pub create_frame : WsOpcode → Bytes → Bytes
unfolding opcode_byte length_bytes
create_frame opcode payload =
    let len = length payload in
    let first = bit_or 0x80 (opcode_byte opcode) in
    if leb len 125
    then first ∷ len ∷ payload
    else if leb len 65535
    then first ∷ 126 ∷ (len / 256 % 256) ∷ (len % 256) ∷ payload
    else first ∷ 127 ∷ (length_bytes 8 len ++ payload)

abbrev pub Socket : Type 0
Socket = List Bytes

-- What is left of a chunk waits in front of the next ones.
abbrev pub put_back : Bytes → Socket → Socket
put_back [] more = more
put_back (b ∷ chunk) more = (b ∷ chunk) ∷ more

-- `read(fd, buffer, n)`: the bytes read and the socket afterwards.
pub read : ℕ → Socket → Bytes × Socket
read n [] = ([], [])
read n (chunk ∷ more) = (take n chunk, put_back (drop n chunk) more)

-- `read(fd, buffer, n) != n` closes the connection.
pub read_exactly : ℕ → Socket → Option (Bytes × Socket)
unfolding read
read_exactly n socket = if length (read n socket).0 == n then some (read n socket) else none

-- A chunk in front of what is read behind it.
abbrev pub join_chunk : Bytes → Option (Bytes × Socket) → Option (Bytes × Socket)
join_chunk chunk none = none
join_chunk chunk (some (rest, socket)) = some (chunk ++ rest, socket)

-- The loop `while (total_read < payload_len)`; `n` is what is missing still.
pub read_all : ℕ → Socket → Option (Bytes × Socket)
read_all n [] = if n == 0 then some ([], []) else none
read_all n (chunk ∷ more) =
    let on = join_chunk chunk (read_all (n - length chunk) more) in
    if n == 0
    then some ([], chunk ∷ more)
    else if is_empty chunk
    then none
    else if ltb n (length chunk)
    then some (take n chunk, drop n chunk ∷ more)
    else on

abbrev pub byte_at : ℕ → Bytes → ℕ
byte_at i bytes = value_or 0 (get_elem? bytes i)

-- `payload_len = (payload_len << 8) | len_bytes[i]` over the bytes, in 64 bits.
pub join_bytes : ℕ → Bytes → ℕ
join_bytes len [] = len
join_bytes len (b ∷ bytes) = join_bytes (len * 256 % 2 ^ 64 + b) bytes

-- The payload's length, from the low seven bits of the second header byte.
pub read_length : ℕ → Socket → Option (ℕ × Socket)
unfolding read_exactly join_bytes
read_length code socket =
    if code == 126
    then (elim (read_exactly 2 socket) [
      | none ↦ none
      | some (bytes, rest) ↦ some (byte_at 0 bytes * 256 + byte_at 1 bytes, rest)
    ])
    else if code == 127
    then (elim (read_exactly 8 socket) [
      | none ↦ none
      | some (bytes, rest) ↦ some (join_bytes 0 bytes, rest)
    ])
    else some (code, socket)

-- The masking key, if there is one.
pub read_mask : Bool → Socket → Option (Bytes × Socket)
unfolding read_exactly
read_mask masked socket = if masked then read_exactly 4 socket else some ([], socket)

-- `payload[i] ^= mask[i % 4]`, from the index `i` on.
pub unmask : Bytes → ℕ → Bytes → Bytes
unmask mask i [] = []
unmask mask i (b ∷ payload) = bit_xor b (byte_at (i % 4) mask) ∷ unmask mask (suc i) payload

-- A message, or `is_close`.
pub data Received : Type 0 where
  closes : Received
  message : Bytes → Socket → Received

module _ (fits : ℕ → Bool) where
  -- Behind the header: the buffer of the payload's length (which the allocator grants if it
  -- `fits`), the payload, and its unmasking.
  pub receive : Bool → ℕ → Bytes → Socket → Outcome Received
  unfolding read_all unmask
  receive masked len mask socket =
      if fits len
      then (elim (read_all len socket) [
        | none ↦ ok closes
        | some (payload, rest) ↦
            ok (message (if masked then unmask mask 0 payload else payload) rest)
      ])
      else err bad_alloc

  -- The length, the key and the payload, from `masked` and the first value of `payload_len`.
  pub read_rest : Bool → ℕ → Socket → Outcome Received
  unfolding receive read_length read_mask
  read_rest masked code socket = elim (read_length code socket) [
    | none ↦ ok closes
    | some (len, socket') ↦ elim (read_mask masked socket') [
      | none ↦ ok closes
      | some (mask, rest) ↦ receive masked len mask rest
    ]
  ]

  unfoldable pub read_frame : Socket → Outcome Received
  unfolding read_rest read_exactly opcode_byte
  read_frame socket = elim (read_exactly 2 socket) [
    | none ↦ ok closes
    | some (header, rest) ↦
        if byte_at 0 header % 16 == opcode_byte close
        then ok closes
        else read_rest (byte_at 1 header / 128 % 2 == 1) (byte_at 1 header % 128) rest
  ]
