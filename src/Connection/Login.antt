-- ===== src/Connection/Login.antt =====
-- What the server reads of a client's response to its greeting (`readHandshakeResponse`).
use mysqlmock.Base.{
  ℕ, suc, ◌+◌, ◌^◌, ◌<◌, ◌≡◌, refl, sym, ap, ◌∙◌, inl, inr, Bool, true, false, not, ◌&&◌, none,
  some, [], ◌∷◌, ◌++◌, append_assoc, arith, ltb, ◌==◌, if◌then◌else◌, ge→ltb, Bool-cases, length,
  take, drop, length-append, take-length_append, drop-length_append, Bytes, beq, index_byte,
}
use mysqlmock.Errors.{ok}
use mysqlmock.Codec.{append_uint32, little_endian}
use mysqlmock.Connection.{has_flag}
use mysqlmock.Connection.Handshake.{
  secure_auth, client_connect_with_db, client_protocol41, client_secure_connection, Login,
  read_database, read_auth, read_user, read_handshake_response,
}

-- No byte of the text is zero, so that a zero can end it.
unfoldable pub no_zero : Bytes → Bool
no_zero [] = true
no_zero (b ∷ bs) = not (b == 0x00) && no_zero bs

index_byte-ended :
    (name rest : Bytes)
    → no_zero name ≡ true
    → index_byte (name ++ 0x00 ∷ rest) 0x00 ≡ some (length name)
unfolding no_zero index_byte
index_byte-ended [] rest h = refl
index_byte-ended (b ∷ bs) rest h = ground (arith, index_byte-ended bs rest)

drop-ended : (name rest : Bytes) → drop (length name + 1) (name ++ 0x00 ∷ rest) ≡ rest
drop-ended [] rest = refl
drop-ended (b ∷ bs) rest =
    let e : suc (length bs) + 1 ≡ suc (length bs + 1) = omega arith in rw e (drop-ended bs rest)

-- The part of the response with the client's proof of its password.
abbrev pub auth_part : Bool → Bytes → Bytes
auth_part true auth = length auth ∷ auth
auth_part false auth = auth ++ 0x00 ∷ []

-- A response by protocol 4.1: the capabilities, 28 bytes that the server does not look at, the user, the proof of the
-- password, and the database.
abbrev pub client_response : ℕ → (filler user auth db tail : Bytes) → Bytes
client_response caps filler user auth db tail =
    let proof = auth_part (has_flag client_secure_connection caps) auth in
    append_uint32 [] caps ++ (filler ++ (user ++ 0x00 ∷ (proof ++ (db ++ 0x00 ∷ tail))))

-- What the part can carry: by its first byte fewer than 256 bytes, and otherwise no zero.
unfoldable pub AuthFits : Bool → Bytes → Type 0
AuthFits true auth = length auth < 256
AuthFits false auth = no_zero auth ≡ true

ended_not_empty : (name rest : Bytes) → beq (name ++ 0x00 ∷ rest) [] ≡ false
unfolding beq
ended_not_empty [] rest = refl
ended_not_empty (b ∷ bs) rest = refl

enough : (auth rest : Bytes) → ltb (length (auth ++ rest)) (length auth) ≡ false
enough auth rest = ground (arith, length-append auth rest)

read_database-named :
    (db tail : Bytes) (login : Login)
    → no_zero db ≡ true
    → read_database (db ++ 0x00 ∷ tail) login ≡ record login {
      current_db =
          if has_flag client_connect_with_db login.client_caps then db else login.current_db;
    }
unfolding read_database beq
read_database-named db tail login h =
    elim (Bool-cases (has_flag client_connect_with_db login.client_caps)) [
      | inl e ↦
          rw
            (
              e,
              ended_not_empty db tail,
              index_byte-ended db tail h,
              take-length_append db (0x00 ∷ tail),
            )
            refl
      | inr e ↦ rw e refl
    ]

read_auth-proved :
    (auth rest : Bytes) (login : Login)
    → AuthFits (has_flag client_secure_connection login.client_caps) auth
    → read_auth (auth_part (has_flag client_secure_connection login.client_caps) auth ++ rest) login
      ≡ read_database rest login
unfolding read_auth secure_auth AuthFits
read_auth-proved auth rest login h = by_flag (has_flag client_secure_connection login.client_caps) h
  where
    by_flag :
        (secure : Bool)
        → AuthFits secure auth
        → (if secure
            then secure_auth (auth_part secure auth ++ rest) login
            else elim (index_byte (auth_part secure auth ++ rest) 0x00) [
              | none ↦ login
              | some end ↦ read_database (drop (end + 1) (auth_part secure auth ++ rest)) login
            ])
          ≡ read_database rest login
    by_flag true fits =
        rw (enough auth rest) (ap (λ r. read_database r login) (drop-length_append auth rest))
    by_flag false unbroken =
        rw (append_assoc auth (0x00 ∷ []) rest, index_byte-ended auth rest unbroken)
          (ap (λ r. read_database r login)
            (ap (drop (length auth + 1)) (append_assoc auth (0x00 ∷ []) rest)
              ∙ drop-ended auth rest))

read_user-named :
    (user rest : Bytes) (login : Login)
    → no_zero user ≡ true
    → read_user (user ++ 0x00 ∷ rest) login ≡ read_auth rest (record login { user = user })
unfolding read_user
read_user-named user rest login h =
    rw (read_user, index_byte-ended user rest h)
      (ap (λ r. read_auth r (record login { user = take (length user) (user ++ 0x00 ∷ rest) }))
          (drop-ended user rest)
        ∙ ap (λ u. read_auth rest (record login { user = u }))
            (take-length_append user (0x00 ∷ rest)))

-- A client that speaks protocol 4.1 sends its capabilities, 28 bytes that are not read, a user, the
-- proof of its password (behind its length, which is below 256, if it has CLIENT_SECURE_CONNECTION,
-- and otherwise before a zero) and a database, where user, database and a proof before a zero have
-- no zero in them. The server takes the capabilities and the user, and the database if the client
-- says that it names one; otherwise the database stays.
pub read_handshake_response-client :
    (caps : ℕ) (filler user auth db tail : Bytes) (login : Login)
    → caps < 2 ^ 32
    → has_flag client_protocol41 caps ≡ true
    → length filler ≡ 28
    → no_zero user ≡ true
    → AuthFits (has_flag client_secure_connection caps) auth
    → no_zero db ≡ true
    → read_handshake_response (client_response caps filler user auth db tail) login ≡ (
      ok tt,
      record {
        client_caps = caps;
        user = user;
        current_db = if has_flag client_connect_with_db caps then db else login.current_db;
      },
    )
unfolding read_handshake_response append_uint32
read_handshake_response-client caps filler user auth db tail login small speaks long nu na nd =
    let proof = auth_part (has_flag client_secure_connection caps) auth in
    let after_user = proof ++ (db ++ 0x00 ∷ tail) in
    let body = user ++ 0x00 ∷ after_user in
    let packet = client_response caps filler user auth db tail in
    let after : Login = record login { client_caps = caps; user = user } in
    let size = length-append filler body in
    let front : drop 32 packet ≡ body =
      ap (λ n. drop n (filler ++ body)) (sym long) ∙ drop-length_append filler body in
    let word : little_endian (take 4 packet) ≡ caps = omega arith in
    let four : ltb (length packet) 4 ≡ false = ground arith in
    let whole : ltb (length packet) 32 ≡ false = ge→ltb (length packet) 32 (omega (arith, size)) in
    rw (word, four, speaks, whole)
      (ap (λ l. (ok tt, l))
        (ap (λ r. read_user r (record login { client_caps = caps })) front
          ∙ (read_user-named user after_user (record login { client_caps = caps }) nu
              ∙ (read_auth-proved auth (db ++ 0x00 ∷ tail) after na
                  ∙ read_database-named db tail after nd))))
