-- ===== src/Rows/FieldType.antt =====
-- The field types of the protocol (`fieldType…` of pkg/mysqlmock/protocol.go).
use mysqlmock.Base.{ℕ}

abbrev pub decimal : ℕ
decimal = 0x00

abbrev pub tiny : ℕ
tiny = 0x01

abbrev pub short : ℕ
short = 0x02

abbrev pub long : ℕ
long = 0x03

abbrev pub float : ℕ
float = 0x04

abbrev pub double : ℕ
double = 0x05

abbrev pub null_type : ℕ
null_type = 0x06

abbrev pub timestamp : ℕ
timestamp = 0x07

abbrev pub long_long : ℕ
long_long = 0x08

abbrev pub int24 : ℕ
int24 = 0x09

abbrev pub date : ℕ
date = 0x0a

abbrev pub time_type : ℕ
time_type = 0x0b

abbrev pub date_time : ℕ
date_time = 0x0c

abbrev pub year : ℕ
year = 0x0d

abbrev pub new_date : ℕ
new_date = 0x0e

abbrev pub var_char : ℕ
var_char = 0x0f

abbrev pub bit : ℕ
bit = 0x10

abbrev pub json : ℕ
json = 0xf5

abbrev pub new_dec : ℕ
new_dec = 0xf6

abbrev pub enum : ℕ
enum = 0xf7

abbrev pub set_type : ℕ
set_type = 0xf8

abbrev pub tiny_blob : ℕ
tiny_blob = 0xf9

abbrev pub med_blob : ℕ
med_blob = 0xfa

abbrev pub long_blob : ℕ
long_blob = 0xfb

abbrev pub blob : ℕ
blob = 0xfc

abbrev pub var_string : ℕ
var_string = 0xfd

abbrev pub string_type : ℕ
string_type = 0xfe

abbrev pub geometry : ℕ
geometry = 0xff
