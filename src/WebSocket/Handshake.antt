-- ===== src/WebSocket/Handshake.antt =====
-- `is_websocket_upgrade` and `create_handshake_response` of src/websocket.cpp. SHA1 of OpenSSL is a
-- parameter.
use sandrun.Common.{
  Bool, false, ◌&&◌, ◌++◌, map, Bytes, codes, tolower, bytes_eq, none, some, Map, lookup, bytes_key,
}
use sandrun.Common.Find.{find, is_found}
use sandrun.WebSocket.Base64.{base64_encode}

-- The comparison of the two header values, in lower case.
pub names_websocket : Bytes → Bytes → Bool
names_websocket upgrade connection =
    bytes_eq (map tolower upgrade) (codes "websocket")
    && is_found (find (codes "upgrade") (map tolower connection))

unfoldable pub is_websocket_upgrade : Map Bytes Bytes → Bool
unfolding names_websocket
is_websocket_upgrade headers = elim (lookup (codes "Upgrade") headers) [
  | none ↦ false
  | some upgrade ↦ elim (lookup (codes "Connection") headers) [
    | none ↦ false
    | some connection ↦ names_websocket upgrade connection
  ]
]

abbrev magic : Bytes
magic = codes "258EAFA5-E914-47DA-95CA-C5AB0DC85B11"

pub create_handshake_response : (Bytes → Bytes) → Bytes → Bytes
create_handshake_response sha1 sec_key =
    codes "HTTP/1.1 101 Switching Protocols\r\nUpgrade: websocket\r\nConnection: Upgrade\r\n"
    ++ (codes "Sec-WebSocket-Accept: "
        ++ (base64_encode (sha1 (sec_key ++ magic)) ++ codes "\r\n\r\n"))
