-- ===== src/Response/ResultSets.antt =====
-- About `writeResultSet`: the packets of a result set on the wire.
use mysqlmock.Base.{
  ℕ, ◌^◌, ◌<◌, ◌≡◌, refl, sym, ap, ◌∙◌, inl, inr, List, [], ◌∷◌, ◌++◌, map, append-nil,
  append_assoc, if◌then◌else◌, Bool-cases, length, Bytes,
}
use mysqlmock.Codec.{append_len_enc_int}
use mysqlmock.Rows.{ResultColumn, column_definition}
use mysqlmock.Packet.{continue, NetError, Net, Exec, pure, write_packet}
use mysqlmock.Packet.Emits.{Emits, Emits-pure, Emits-bind}
use mysqlmock.Packet.Framing.{frame, write_packet-Emits}
use mysqlmock.Response.{
  Session, eof_payload, eof_as_ok_payload, write_eof, write_eof_as_ok, deprecates_eof, next,
  write_column_definition_terminator, write_result_set_terminator, write_packets, write_rows,
}
use mysqlmock.Errors.{Result, ok, err}
use mysqlmock.Packet.{◌>>=◌}

-- The frames of payloads, numbered from `seq` on.
abbrev pub frames : ℕ → List Bytes → Bytes
frames seq [] = []
frames seq (p ∷ ps) = frame seq p ++ frames (next seq) ps

abbrev pub advance : ℕ → List Bytes → ℕ
advance seq [] = seq
advance seq (p ∷ ps) = advance (next seq) ps

abbrev pub AllShort : List Bytes → Type 0
AllShort [] = Unit
AllShort (p ∷ ps) = (length p < 2 ^ 24) × AllShort ps

-- The payloads of the response that holds these columns and row payloads.
abbrev pub response : Session → List ResultColumn → List Bytes → List Bytes
response s columns rows =
    append_len_enc_int [] (length columns)
    ∷ (map (column_definition s.current_db) columns
        ++ ((if deprecates_eof s then [] else eof_payload s ∷ [])
            ++ (rows ++ (if deprecates_eof s then eof_as_ok_payload s else eof_payload s) ∷ [])))

pub frames-append :
    (seq : ℕ) (ps qs : List Bytes)
    → frames seq (ps ++ qs) ≡ frames seq ps ++ frames (advance seq ps) qs
frames-append seq [] qs = refl
frames-append seq (p ∷ ps) qs =
    ap (λ r. frame seq p ++ r) (frames-append (next seq) ps qs)
    ∙ sym (append_assoc (frame seq p) (frames (next seq) ps) (frames (advance (next seq) ps) qs))

pub AllShort-append-left : (ps qs : List Bytes) → AllShort (ps ++ qs) → AllShort ps
AllShort-append-left [] qs h = tt
AllShort-append-left (p ∷ ps) qs h = (h.0, AllShort-append-left ps qs h.1)

pub AllShort-append-right : (ps qs : List Bytes) → AllShort (ps ++ qs) → AllShort qs
AllShort-append-right [] qs h = h
AllShort-append-right (p ∷ ps) qs h = AllShort-append-right ps qs h.1

continue-seq :
    (r : Result NetError Unit) (f : Exec ℕ) (net : Net) {a : ℕ}
    → (continue r (λ _. f) net).0 ≡ ok a
    → (f net).0 ≡ ok a
continue-seq (ok u) f net e = e
continue-seq (err x) f net e = cc

-- A loop over payloads that succeeds ends at the next sequence number.
pub write_packets-advance :
    (seq : ℕ) (ps : List Bytes) (net : Net) {a : ℕ}
    → (write_packets seq ps net).0 ≡ ok a
    → a ≡ advance seq ps
unfolding write_packets
write_packets-advance seq [] net e = cc
write_packets-advance seq (p ∷ ps) net e =
    write_packets-advance (next seq) ps (write_packet seq p net).1 (
      continue-seq (write_packet seq p net).0 (write_packets (next seq) ps)
        (write_packet seq p net).1 e)

-- The loop sends the frames of its payloads.
pub write_packets-Emits :
    (seq : ℕ) (ps : List Bytes) (net : Net)
    → AllShort ps
    → Emits net (write_packets seq ps net) (frames seq ps)
unfolding write_packets
write_packets-Emits seq [] net h = Emits-pure seq net
write_packets-Emits seq (p ∷ ps) net h =
    Emits-bind net (write_packet seq p) (λ _. write_packets (next seq) ps) (frame seq p)
      (frames (next seq) ps) (write_packet-Emits seq p net h.0)
      (λ u n e. write_packets-Emits (next seq) ps n h.1)

-- One packet, and a sequence number that is returned behind it.
write_then-Emits :
    (seq : ℕ) (p : Bytes) (net : Net)
    → length p < 2 ^ 24
    → Emits net ((write_packet seq p >>= λ _. pure (next seq)) net) (frames seq (p ∷ []))
write_then-Emits seq p net h =
    Emits-bind net (write_packet seq p) (λ _. pure (next seq)) (frame seq p) []
      (write_packet-Emits seq p net h) (λ u n e. Emits-pure (next seq) n)

abbrev pub eof_between : Session → List Bytes
eof_between s = if deprecates_eof s then [] else eof_payload s ∷ []

abbrev last_payload : Session → Bytes
last_payload s = if deprecates_eof s then eof_as_ok_payload s else eof_payload s

terminator-Emits :
    (s : Session) (seq : ℕ) (net : Net)
    → AllShort (last_payload s ∷ [])
    → Emits net (write_result_set_terminator s seq net) (frames seq (last_payload s ∷ []))
unfolding write_result_set_terminator write_eof write_eof_as_ok
terminator-Emits s seq net h =
    rw (append-nil (frame seq (last_payload s))) (elim (Bool-cases (deprecates_eof s)) [
      | inl e ↦ rw e (write_packet-Emits seq (eof_as_ok_payload s) net (rw e at h.0))
      | inr e ↦ rw e (write_packet-Emits seq (eof_payload s) net (rw e at h.0))
    ])

pub column_terminator-Emits :
    (s : Session) (seq : ℕ) (net : Net)
    → AllShort (eof_between s)
    → Emits net (write_column_definition_terminator s seq net) (frames seq (eof_between s))
unfolding write_column_definition_terminator write_eof
column_terminator-Emits s seq net h = elim (Bool-cases (deprecates_eof s)) [
  | inl e ↦ rw e (Emits-pure seq net)
  | inr e ↦ rw e (write_then-Emits seq (eof_payload s) net (rw e at h).0)
]

column_terminator-advance :
    (s : Session) (seq : ℕ) (net : Net) {a : ℕ}
    → (write_column_definition_terminator s seq net).0 ≡ ok a
    → a ≡ advance seq (eof_between s)
unfolding write_column_definition_terminator write_eof
column_terminator-advance s seq net h = elim (Bool-cases (deprecates_eof s)) [
  | inl e ↦ rw e (cc (rw e at h))
  | inr e ↦ rw e (
      cc (
        continue-seq (write_packet seq (eof_payload s) net).0 (pure (next seq))
          (write_packet seq (eof_payload s) net).1 (rw e at h)))
]

abbrev after_columns : Session → List Bytes → ℕ → Exec Unit
after_columns s rows seq1 = write_column_definition_terminator s seq1 >>= λ seq2.
    write_packets seq2 rows >>= λ seq3. write_result_set_terminator s seq3

rows_end-Emits :
    (s : Session) (rows : List Bytes) (seq : ℕ) (net : Net)
    → AllShort (rows ++ last_payload s ∷ [])
    → Emits net
        ((write_packets seq rows >>= λ seq3. write_result_set_terminator s seq3) net)
        (frames seq (rows ++ last_payload s ∷ []))
rows_end-Emits s rows seq net h = rw (frames-append seq rows (last_payload s ∷ [])) (
    Emits-bind net (write_packets seq rows) (λ seq3. write_result_set_terminator s seq3)
      (frames seq rows) (frames (advance seq rows) (last_payload s ∷ []))
      (write_packets-Emits seq rows net (AllShort-append-left rows (last_payload s ∷ []) h))
      (λ a n e. rw (write_packets-advance seq rows net e) (
        terminator-Emits s (advance seq rows) n
          (AllShort-append-right rows (last_payload s ∷ []) h))))

after_columns-Emits :
    (s : Session) (rows : List Bytes) (seq : ℕ) (net : Net)
    → AllShort (eof_between s ++ (rows ++ last_payload s ∷ []))
    → Emits net
        (after_columns s rows seq net)
        (frames seq (eof_between s ++ (rows ++ last_payload s ∷ [])))
after_columns-Emits s rows seq net h =
    let last = rows ++ last_payload s ∷ [] in
    rw (frames-append seq (eof_between s) last) (
      Emits-bind net (write_column_definition_terminator s seq)
        (λ seq2. write_packets seq2 rows >>= λ seq3. write_result_set_terminator s seq3)
        (frames seq (eof_between s)) (frames (advance seq (eof_between s)) last)
        (column_terminator-Emits s seq net (AllShort-append-left (eof_between s) last h))
        (λ a n e. rw (column_terminator-advance s seq net e) (
          rows_end-Emits s rows (advance seq (eof_between s)) n
            (AllShort-append-right (eof_between s) last h))))

-- A result set is sent as the frames of its column count, its column definitions, an EOF for a
-- client that has not deprecated it, its rows, and the last packet, numbered one after another
-- from `seq` (modulo 256): all of them when every payload is short and the writes meet no fault,
-- a beginning of that stream on a fault, and all of it whenever the writer reports success.
pub write_rows-Emits :
    (s : Session) (seq : ℕ) (columns : List ResultColumn) (rows : List Bytes) (net : Net)
    → AllShort (response s columns rows)
    → Emits net (write_rows s seq columns rows net) (frames seq (response s columns rows))
unfolding write_rows
write_rows-Emits s seq columns rows net h =
    let count = append_len_enc_int [] (length columns) in
    let defs = map (column_definition s.current_db) columns in
    let later = eof_between s ++ (rows ++ last_payload s ∷ []) in
    Emits-bind net (write_packet seq count)
      (λ _. write_packets (next seq) defs >>= after_columns s rows) (frame seq count)
      (frames (next seq) (defs ++ later)) (write_packet-Emits seq count net h.0)
      (λ u n e. rw (frames-append (next seq) defs later) (
        Emits-bind n (write_packets (next seq) defs) (after_columns s rows) (frames (next seq) defs)
          (frames (advance (next seq) defs) later)
          (write_packets-Emits (next seq) defs n (AllShort-append-left defs later h.1))
          (λ a n' e'. rw (write_packets-advance (next seq) defs n e') (
            after_columns-Emits s rows (advance (next seq) defs) n'
              (AllShort-append-right defs later h.1)))))
