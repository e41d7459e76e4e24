-- ===== src/WebSocket/Frame/RoundTrip.antt =====
-- `read_frame` of src/websocket.cpp reads what `create_frame` writes, and what a client sends
-- masked.
use Prim.Native.Nat.{bit_or, bit_xor}
use mathlib.Core.Path.{ap₂}
use mathlib.Core.List.{append_cancel_right}
use sandrun.Common.Bits.{bit_xor_twice}
use sandrun.Common.{
  ℕ, zero, suc, ◌+◌, ◌/◌, ◌%◌, ◌^◌, ◌<◌, Bool, true, false, [], ◌∷◌, ◌++◌, ◌≡◌, ◌≢◌, refl, ◌∙◌,
  arith, some, Bytes, ◌==◌, leb, if◌then◌else◌, length, All, append-nil, Bool-cases, ap, sym, inl,
  inr, ok, err, bad_alloc,
}
use sandrun.WebSocket.Frame.{
  WsOpcode, continuation, text, binary, close, ping, pong, opcode_byte, create_frame, Socket,
  put_back, read, read_exactly, read_length, read_mask, length_bytes, byte_at, unmask, receive,
  read_rest, read_frame, message,
}
use sandrun.WebSocket.Frame.Reading.{Filled, joined, read_all-joined, length_bytes_lem}

-- The low seven bits of the second header byte for a payload of length `len`, and what follows.
length_code : ℕ → ℕ
length_code len = if leb len 125 then len else if leb len 65535 then 126 else 127

length_rest : ℕ → Bytes
length_rest len =
    if leb len 125
    then []
    else if leb len 65535
    then (len / 256 % 256) ∷ (len % 256) ∷ []
    else length_bytes 8 len

-- RFC 6455, section 5.3: the bytes of the key take turns.
masked : Bytes → Bytes → Bytes
masked key [] = []
masked [] (x ∷ payload) = x ∷ payload
masked (k ∷ key) (x ∷ payload) = bit_xor x k ∷ masked (key ++ k ∷ []) payload

-- RFC 6455, section 5.2: the frame of a client is masked by a key of four bytes.
pub client_frame : ℕ → Bytes → Bytes → Bytes
unfolding length_code length_rest masked
client_frame first key payload =
    first
    ∷ (128 + length_code (length payload))
    ∷ (length_rest (length payload) ++ (key ++ masked key payload))

create_frame_lem :
    (opcode : WsOpcode) (payload : Bytes)
    → create_frame opcode payload
      ≡ bit_or 0x80 (opcode_byte opcode)
        ∷ length_code (length payload)
        ∷ (length_rest (length payload) ++ payload)
unfolding create_frame length_code length_rest
create_frame_lem opcode payload = ground arith

read_exactly_2 :
    (x y : ℕ) (part : Bytes) (chunks : Socket)
    → read_exactly 2 ((x ∷ y ∷ part) ∷ chunks) ≡ some (x ∷ y ∷ [], put_back part chunks)
unfolding read_exactly read
read_exactly_2 x y part chunks = refl

read_exactly_8 :
    (len : ℕ) (part : Bytes) (chunks : Socket)
    → read_exactly 8 (put_back (length_bytes 8 len ++ part) chunks)
      ≡ some (length_bytes 8 len, put_back part chunks)
unfolding read_exactly read length_bytes
read_exactly_8 len part chunks = refl

read_length_lem :
    (len : ℕ) (part : Bytes) (chunks : Socket)
    → len < 2 ^ 64
    → read_length (length_code len) (put_back (length_rest len ++ part) chunks)
      ≡ some (len, put_back part chunks)
unfolding read_length length_code length_rest
read_length_lem len part chunks h = elim (Bool-cases (leb len 125)) [
  | inl short ↦ ground arith
  | inr long ↦ elim (Bool-cases (leb len 65535)) [
    | inl middle ↦ ground (arith, read_exactly_2 (len / 256 % 256) (len % 256) part chunks)
    | inr large ↦ ground (arith, read_exactly_8 len part chunks, length_bytes_lem len h)
  ]
]

length_code-lt : (len : ℕ) → length_code len < 128
unfolding length_code
length_code-lt len = ground arith

receive_lem :
    (fits : ℕ → Bool) (masked : Bool) (mask part : Bytes) (chunks later : Socket)
    → Filled chunks
    → fits (length (part ++ joined chunks)) ≡ true
    → receive fits masked (length (part ++ joined chunks)) mask (put_back part (chunks ++ later))
      ≡ ok (
          message
            (if masked then unmask mask 0 (part ++ joined chunks) else part ++ joined chunks)
            later)
unfolding receive
receive_lem fits masked mask [] chunks later filled f =
    ground (arith, read_all-joined chunks later filled)
receive_lem fits masked mask (b ∷ part) chunks later filled f =
    ground (arith, read_all-joined ((b ∷ part) ∷ chunks) later (refl, filled))

byte_at-lt : (bytes : Bytes) (i : ℕ) → All (λ b. b < 256) bytes → byte_at i bytes < 256
byte_at-lt [] i h = omega arith
byte_at-lt (b ∷ bytes) zero h = h.0
byte_at-lt (b ∷ bytes) (suc i) h = byte_at-lt bytes i h.1

length-unmask :
    (key : Bytes) (i : ℕ) (payload : Bytes) → length (unmask key i payload) ≡ length payload
unfolding unmask
length-unmask key i [] = refl
length-unmask key i (b ∷ payload) = ap suc (length-unmask key (suc i) payload)

unmask-unmask :
    (key : Bytes) (i : ℕ) (payload : Bytes)
    → All (λ b. b < 256) key
    → All (λ b. b < 256) payload
    → unmask key i (unmask key i payload) ≡ payload
unfolding unmask
unmask-unmask key i [] hk hp = refl
unmask-unmask key i (b ∷ payload) hk (hb, hp) =
    let pad = byte_at (i % 4) key in
    ap₂ ◌∷◌ (bit_xor_twice b pad hb (byte_at-lt key (i % 4) hk))
      (unmask-unmask key (suc i) payload hk hp)

-- The key from the place `r` on.
abbrev turned : ℕ → ℕ → ℕ → ℕ → ℕ → Bytes
turned a b c d zero = a ∷ b ∷ c ∷ d ∷ []
turned a b c d (suc zero) = b ∷ c ∷ d ∷ a ∷ []
turned a b c d (suc (suc zero)) = c ∷ d ∷ a ∷ b ∷ []
turned a b c d r = d ∷ a ∷ b ∷ c ∷ []

unmask-turned :
    (a b c d r i : ℕ) (payload : Bytes)
    → r < 4
    → i % 4 ≡ r
    → unmask (a ∷ b ∷ c ∷ d ∷ []) i payload ≡ masked (turned a b c d r) payload
unfolding unmask masked
unmask-turned a b c d zero i [] h e = refl
unmask-turned a b c d (suc zero) i [] h e = refl
unmask-turned a b c d (suc (suc zero)) i [] h e = refl
unmask-turned a b c d (suc (suc (suc zero))) i [] h e = refl
unmask-turned a b c d (suc (suc (suc (suc r)))) i payload h e = absurd (omega arith)
unmask-turned a b c d zero i (x ∷ payload) h e =
    rw e
      (ap (◌∷◌ (bit_xor x a)) (unmask-turned a b c d 1 (suc i) payload (omega arith) (omega arith)))
unmask-turned a b c d (suc zero) i (x ∷ payload) h e =
    rw e
      (ap (◌∷◌ (bit_xor x b)) (unmask-turned a b c d 2 (suc i) payload (omega arith) (omega arith)))
unmask-turned a b c d (suc (suc zero)) i (x ∷ payload) h e =
    rw e
      (ap (◌∷◌ (bit_xor x c)) (unmask-turned a b c d 3 (suc i) payload (omega arith) (omega arith)))
unmask-turned a b c d (suc (suc (suc zero))) i (x ∷ payload) h e =
    rw e
      (ap (◌∷◌ (bit_xor x d)) (unmask-turned a b c d 0 (suc i) payload (omega arith) (omega arith)))

-- `mask[i % 4]` is the byte of the key whose turn it is.
unmask-masked : (key payload : Bytes) → length key ≡ 4 → unmask key 0 payload ≡ masked key payload
unmask-masked (a ∷ b ∷ c ∷ d ∷ []) payload k = unmask-turned a b c d 0 0 payload (omega arith) refl
unmask-masked [] payload k = absurd (omega arith)
unmask-masked (a ∷ []) payload k = absurd (omega arith)
unmask-masked (a ∷ b ∷ []) payload k = absurd (omega arith)
unmask-masked (a ∷ b ∷ c ∷ []) payload k = absurd (omega arith)
unmask-masked (a ∷ b ∷ c ∷ d ∷ f ∷ key) payload k = absurd (omega arith)

receive-unmask :
    (fits : ℕ → Bool) (key payload : Bytes) (later : Socket)
    → All (λ b. b < 256) key
    → All (λ b. b < 256) payload
    → fits (length payload) ≡ true
    → receive fits true (length payload) key (put_back (unmask key 0 payload) later)
      ≡ ok (message payload later)
receive-unmask fits key payload later hk hp f =
    let sent = unmask key 0 payload in
    let same = length-unmask key 0 payload in
    let whole = append-nil sent in
    let got = receive_lem fits true key sent [] later tt (rw (whole, same) f) in
    let got' : receive fits true (length payload) key (put_back sent later)
        ≡ ok (message (unmask key 0 sent) later) =
      rw (whole, same) at got in
    got' ∙ ap (λ t. ok (message t later)) (unmask-unmask key 0 payload hk hp)

-- The first byte of a frame keeps the opcode in its low half.
opcode_byte-kept : (opcode : WsOpcode) → bit_or 0x80 (opcode_byte opcode) % 16 ≡ opcode_byte opcode
unfolding opcode_byte
opcode_byte-kept continuation = refl
opcode_byte-kept text = refl
opcode_byte-kept binary = refl
opcode_byte-kept close = refl
opcode_byte-kept ping = refl
opcode_byte-kept pong = refl

is_close_byte : (opcode : WsOpcode) → opcode ≢ close → (opcode_byte opcode == 8) ≡ false
unfolding opcode_byte
is_close_byte continuation h = refl
is_close_byte text h = refl
is_close_byte binary h = refl
is_close_byte close h = absurd (h refl)
is_close_byte ping h = refl
is_close_byte pong h = refl

read_frame_rest :
    (fits : ℕ → Bool) (first second : ℕ) (rest : Bytes) (chunks : Socket)
    → (first % 16 == 8) ≡ false
    → read_frame fits ((first ∷ second ∷ rest) ∷ chunks)
      ≡ read_rest fits (second / 128 % 2 == 1) (second % 128) (put_back rest chunks)
unfolding read_frame read_exactly read opcode_byte
read_frame_rest fits first second rest chunks h = rw h

read_rest_plain :
    (fits : ℕ → Bool) (code len : ℕ) (socket rest : Socket)
    → read_length code socket ≡ some (len, rest)
    → read_rest fits false code socket ≡ receive fits false len [] rest
unfolding read_rest read_mask
read_rest_plain fits code len socket rest e = rw (e, read_rest)

read_rest_masked :
    (fits : ℕ → Bool) (code len : ℕ) (key part : Bytes) (socket chunks : Socket)
    → length key ≡ 4
    → read_length code socket ≡ some (len, put_back (key ++ part) chunks)
    → read_rest fits true code socket ≡ receive fits true len key (put_back part chunks)
unfolding read_rest read_mask read_exactly read
read_rest_masked fits code len (a ∷ b ∷ c ∷ d ∷ []) part socket chunks k e = rw (e, read_rest)
read_rest_masked fits code len [] part socket chunks k e = absurd (omega arith)
read_rest_masked fits code len (a ∷ []) part socket chunks k e = absurd (omega arith)
read_rest_masked fits code len (a ∷ b ∷ []) part socket chunks k e = absurd (omega arith)
read_rest_masked fits code len (a ∷ b ∷ c ∷ []) part socket chunks k e = absurd (omega arith)
read_rest_masked fits code len (a ∷ b ∷ c ∷ d ∷ f ∷ key) part socket chunks k e =
    absurd (omega arith)

-- The second header byte comes apart again.
mask_bit :
    (code : ℕ)
    → code < 128
    → ((code / 128 % 2 == 1) ≡ false)
      × (code % 128 ≡ code)
      × (((128 + code) / 128 % 2 == 1) ≡ true)
      × ((128 + code) % 128 ≡ code)
mask_bit code h = (ground arith, omega arith, ground arith, omega arith)

-- A frame that `create_frame` wrote, cut into chunks anywhere behind its header, is read back as
-- its payload, and what arrives behind it is left; the opcode is not that of a closing frame, the
-- payload is shorter than 2^64, no chunk is empty, and the buffer can be allocated.
pub read_frame-create_frame :
    (fits : ℕ → Bool) (opcode : WsOpcode) (header part : Bytes) (chunks later : Socket)
    → opcode ≢ close
    → create_frame opcode (part ++ joined chunks) ≡ header ++ (part ++ joined chunks)
    → Filled chunks
    → length (part ++ joined chunks) < 2 ^ 64
    → fits (length (part ++ joined chunks)) ≡ true
    → read_frame fits ((header ++ part) ∷ (chunks ++ later))
      ≡ ok (message (part ++ joined chunks) later)
read_frame-create_frame fits opcode header part chunks later h e filled small f =
    let payload = part ++ joined chunks in
    let len = length payload in
    let code = length_code len in
    let first = bit_or 0x80 (opcode_byte opcode) in
    let kept : (first % 16 == 8) ≡ false = rw (opcode_byte-kept opcode) (is_close_byte opcode h) in
    let cut : header ≡ first ∷ code ∷ length_rest len =
      append_cancel_right header (first ∷ code ∷ length_rest len) payload
        (sym e ∙ create_frame_lem opcode payload) in
    let (plain, low, _, _) = mask_bit code (length_code-lt len) in
    rw cut (
      read_frame_rest fits first code (length_rest len ++ part) (chunks ++ later) kept
      ∙ rw (plain, low)
          (read_rest_plain fits code len _ _ (read_length_lem len part (chunks ++ later) small)
            ∙ receive_lem fits false [] part chunks later filled f))

-- A client's frame is read back as its payload, and what arrives behind it is left: the payload is
-- masked as RFC 6455 says, by the four bytes of a key in turn. The frame is no closing one, its
-- payload is shorter than 2^64, and the buffer can be allocated.
pub read_frame-client_frame :
    (fits : ℕ → Bool) (first : ℕ) (key payload : Bytes) (later : Socket)
    → (first % 16 == 8) ≡ false
    → length key ≡ 4
    → All (λ b. b < 256) key
    → All (λ b. b < 256) payload
    → length payload < 2 ^ 64
    → fits (length payload) ≡ true
    → read_frame fits (client_frame first key payload ∷ later) ≡ ok (message payload later)
unfolding client_frame
read_frame-client_frame fits first key payload later h four hk hp small f =
    let len = length payload in
    let code = length_code len in
    let sent = unmask key 0 payload in
    let (_, _, is_masked, low) = mask_bit code (length_code-lt len) in
    rw (← unmask-masked key payload four) (
      read_frame_rest fits first (128 + code) (length_rest len ++ (key ++ sent)) later h
      ∙ rw (is_masked, low)
          (read_rest_masked fits code len key sent _ later four
              (read_length_lem len (key ++ sent) later small)
            ∙ receive-unmask fits key payload later hk hp f))

-- A header of ten bytes that announces more than the allocator grants makes `read_frame` throw,
-- whatever follows it.
read_frame-bad_alloc :
    (fits : ℕ → Bool) (first len : ℕ) (part : Bytes) (chunks : Socket)
    → (first % 16 == 8) ≡ false
    → len < 2 ^ 64
    → fits len ≡ false
    → read_frame fits ((first ∷ 127 ∷ (length_bytes 8 len ++ part)) ∷ chunks) ≡ err bad_alloc
read_frame-bad_alloc fits first len part chunks h small f =
    read_frame_rest fits first 127 (length_bytes 8 len ++ part) chunks h
    ∙ read_rest_plain fits 127 len _ (put_back part chunks) long
    ∙ refused
  where
    long :
        read_length 127 (put_back (length_bytes 8 len ++ part) chunks)
        ≡ some (len, put_back part chunks)
    long = unfold read_length in rw (read_exactly_8 len part chunks, length_bytes_lem len small)

    refused : receive fits false len [] (put_back part chunks) ≡ err bad_alloc
    refused = unfold receive in rw f
