-- ===== src/WebSocket/Tests.antt =====
-- The theorems on src/websocket.cpp at inputs.
use sandrun.Common.{
  ℕ, Bool, true, false, ◌&&◌, [], ◌∷◌, ◌≡◌, refl, arith, Bytes, codes, ◌==◌, ltb, some, ok,
  contains, bytes_key, nat_key,
}
use sandrun.WebSocket.Base64.{base64_encode}
use sandrun.WebSocket.Base64.RoundTrip.{decode, decode-base64_encode}
use sandrun.WebSocket.Frame.{text, create_frame, read_frame, message}
use sandrun.WebSocket.Frame.RoundTrip.{
  client_frame, read_frame-create_frame, read_frame-client_frame,
}
use sandrun.WebSocket.Broadcaster.{Broadcaster, members, broadcast, broadcast-contains}

decode-base64_encode_example : decode (base64_encode (codes "sand")) ≡ some (codes "sand")
decode-base64_encode_example = decode-base64_encode (codes "sand") (omega arith)

small_buffer : ℕ → Bool
small_buffer n = ltb n 1000

read_frame-create_frame_example :
    read_frame small_buffer ((0x81 ∷ 5 ∷ codes "he") ∷ codes "llo" ∷ codes "more" ∷ [])
    ≡ ok (message (codes "hello") (codes "more" ∷ []))
unfolding small_buffer create_frame
read_frame-create_frame_example =
    read_frame-create_frame small_buffer text (0x81 ∷ 5 ∷ []) (codes "he") (codes "llo" ∷ [])
      (codes "more" ∷ []) (λ e. cc) refl (refl, tt) (omega arith) refl

read_frame-client_frame_example :
    read_frame small_buffer (client_frame 0x81 (1 ∷ 2 ∷ 3 ∷ 4 ∷ []) (codes "hello") ∷ [])
    ≡ ok (message (codes "hello") [])
unfolding small_buffer
read_frame-client_frame_example =
    read_frame-client_frame small_buffer 0x81 (1 ∷ 2 ∷ 3 ∷ 4 ∷ []) (codes "hello") [] refl refl
      (omega arith) (omega arith) (omega arith) refl

job_1 : Bytes
job_1 = codes "job_1"

two_clients : Broadcaster
unfolding job_1
two_clients = record {
  subscribers = (job_1, 4 ∷ 7 ∷ []) ∷ [];
  accumulated_output = (job_1, codes "hi") ∷ [];
}

broadcast-contains_example :
    (contains 7 (members job_1 (broadcast (λ fd. fd == 4) job_1 two_clients).0)
      ≡ (contains 7 (members job_1 two_clients) && false))
    × (contains 7 (broadcast (λ fd. fd == 4) job_1 two_clients).1
        ≡ (contains 7 (members job_1 two_clients) && true))
broadcast-contains_example = broadcast-contains (λ fd. fd == 4) job_1 two_clients 7
