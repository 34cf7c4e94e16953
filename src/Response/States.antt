-- ===== src/Response/States.antt =====
-- About `fixedSQLState`.
use mysqlmock.Base.{
  ℕ, ◌-◌, ◌≡◌, refl, arith, length, replicate, length-append, length-take, length-replicate, Bytes,
  beq,
}
use mysqlmock.Response.{fixed_sql_state}

five_long : (state : Bytes) → length state ≡ 5 → fixed_sql_state state ≡ state
unfolding fixed_sql_state
five_long state h = rw h refl

always_five : (state : Bytes) → length (fixed_sql_state state) ≡ 5
unfolding fixed_sql_state beq
always_five state = ground (
  arith,
  length-take 5 state,
  length-append state (replicate (5 - length state) b'0'),
  length-replicate {A = ℕ} (5 - length state) b'0',
)

-- A state of whatever length is sent as five bytes, and a state that is sent is sent again as it
-- is.
pub length-fixed_sql_state :
    (state : Bytes)
    → (length (fixed_sql_state state) ≡ 5)
      × (fixed_sql_state (fixed_sql_state state) ≡ fixed_sql_state state)
length-fixed_sql_state state =
    (always_five state, five_long (fixed_sql_state state) (always_five state))
