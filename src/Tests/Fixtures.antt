-- ===== src/Tests/Fixtures.antt =====
-- Values that the concrete runs share.
use mysqlmock.Base.{none, [], codes}
use mysqlmock.Value.{Runtime}
use mysqlmock.Packet.{Net}
use mysqlmock.Response.{Session}
use mysqlmock.Rows.{ResultColumn}
use mysqlmock.Rows.FieldType

-- A runtime in which every float is its own bit pattern and no text is a float or a date.
abbrev pub plain_runtime : Runtime
plain_runtime = record {
  widen = λ x. x;
  narrow = λ x. x;
  of_int = λ n. 0;
  parse_float = λ s. none;
  format_float32 = λ x. [];
  format_float64 = λ x. [];
  sprint_float = λ k x. [];
  sprint_time = λ t. [];
  date = λ y mo d h mi s n. record {
    year = y;
    month = mo;
    day = d;
    hour = h;
    minute = mi;
    second = s;
    nanosecond = n;
  };
  parse_in_location = λ l v. none;
}

-- A connection on which every write succeeds.
abbrev pub quiet_net : Net
quiet_net = record { inbound = []; outbound = []; faults = []; packet_buf = [] }

abbrev pub old_client : Session
old_client = record { client_caps = 0; status_flags = 2; current_db = codes "db" }

abbrev pub id_column : ResultColumn
id_column = record { name = codes "id"; field_type = FieldType.long; zero_fill_width = 4 }

abbrev pub name_column : ResultColumn
name_column = record { name = codes "n"; field_type = FieldType.var_string; zero_fill_width = 0 }
