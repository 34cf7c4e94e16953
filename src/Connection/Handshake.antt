-- ===== src/Connection/Handshake.antt =====
-- The handshake (`writeHandshake`, `serverCapabilityFlags`, `readHandshakeResponse` of
-- pkg/mysqlmock/protocol.go).
use mysqlmock.Base.{
  ℕ, ◌+◌, ◌/◌, ◌%◌, not, ◌&&◌, none, some, [], ◌∷◌, ◌++◌, ltb, if◌then◌else◌, length, take, drop,
  replicate, Bytes, codes, beq, index_byte,
}
use mysqlmock.Errors.{Result, ok, err}
use mysqlmock.Codec.{append_uint16, append_uint32, little_endian, byte}
use mysqlmock.Packet.{Exec, write_packet}
use mysqlmock.Response.{client_deprecate_eof}
use mysqlmock.Connection.{has_flag}

abbrev pub client_long_password : ℕ
client_long_password = 0x0000_0001

abbrev pub client_long_flag : ℕ
client_long_flag = 0x0000_0004

abbrev pub client_connect_with_db : ℕ
client_connect_with_db = 0x0000_0008

abbrev pub client_protocol41 : ℕ
client_protocol41 = 0x0000_0200

abbrev pub client_transactions : ℕ
client_transactions = 0x0000_2000

abbrev pub client_secure_connection : ℕ
client_secure_connection = 0x0000_8000

abbrev pub client_plugin_auth : ℕ
client_plugin_auth = 0x0008_0000

-- `serverCapabilityFlags`: different bits, so that `|` is a sum.
unfoldable pub server_capability_flags : ℕ
server_capability_flags =
    client_long_password + client_long_flag + client_connect_with_db + client_protocol41
    + client_transactions + client_secure_connection + client_plugin_auth + client_deprecate_eof

abbrev pub auth_data : Bytes
auth_data = codes "12345678abcdefghijkl"

abbrev pub plugin_name : Bytes
plugin_name = codes "mysql_native_password"

-- The payload of `writeHandshake`.
unfoldable pub handshake_payload : Bytes → ℕ → ℕ → Bytes
unfolding server_capability_flags append_uint16 append_uint32
handshake_payload version connection_id status_flags =
    let caps = server_capability_flags in
    append_uint32 (0x0a ∷ [] ++ version ++ 0x00 ∷ []) connection_id
    ++ take 8 auth_data
    ++ append_uint16 (0x00 ∷ []) (caps % 65536)
    ++ append_uint16 (append_uint16 (45 ∷ []) status_flags) (caps / 65536 % 65536)
    ++ (byte (length auth_data + 1) ∷ [])
    ++ replicate 10 0
    ++ drop 8 auth_data
    ++ (0x00 ∷ [])
    ++ plugin_name
    ++ (0x00 ∷ [])

-- `writeHandshake`
unfoldable pub write_handshake : Bytes → ℕ → ℕ → Exec Unit
write_handshake version connection_id status_flags =
    write_packet 0 (handshake_payload version connection_id status_flags)

pub data HandshakeError : Type 0 where
  malformed_response : HandshakeError
  protocol41_required : HandshakeError
  malformed_protocol41 : HandshakeError

-- What the response of the client sets on the connection.
pub record Login : Type 0 where
  pub client_caps : ℕ
  pub user : Bytes
  pub current_db : Bytes

-- The functions below take the rest of the payload from `pos` on: `pos < len(payload)` is that it
-- is not empty. A response that ends early is no error.
unfoldable pub read_database : Bytes → Login → Login
unfolding has_flag
read_database rest login =
    if has_flag client_connect_with_db login.client_caps && not (beq rest [])
    then elim (index_byte rest 0x00) [
      | none ↦ login
      | some end ↦ record login { current_db = take end rest }
    ]
    else login

unfoldable pub secure_auth : Bytes → Login → Login
unfolding read_database
secure_auth [] login = login
secure_auth (auth_len ∷ rest) login =
    if ltb (length rest) auth_len then login else read_database (drop auth_len rest) login

unfoldable pub read_auth : Bytes → Login → Login
unfolding secure_auth has_flag
read_auth rest login =
    if has_flag client_secure_connection login.client_caps
    then secure_auth rest login
    else elim (index_byte rest 0x00) [
      | none ↦ login
      | some end ↦ read_database (drop (end + 1) rest) login
    ]

unfoldable pub read_user : Bytes → Login → Login
unfolding read_auth
read_user rest login = elim (index_byte rest 0x00) [
  | none ↦ login
  | some end ↦ read_auth (drop (end + 1) rest) (record login { user = take end rest })
]

-- `readHandshakeResponse`; what is set before an error stays set.
unfoldable pub read_handshake_response : Bytes → Login → Result HandshakeError Unit × Login
unfolding read_user has_flag
read_handshake_response payload login =
    let known : Login = record login { client_caps = little_endian (take 4 payload) } in
    if ltb (length payload) 4
    then (err malformed_response, login)
    else if not (has_flag client_protocol41 known.client_caps)
    then (err protocol41_required, known)
    else if ltb (length payload) 32
    then (err malformed_protocol41, known)
    else (ok tt, read_user (drop 32 payload) known)
