-- ===== src/LogicalBackup/Wire.antt =====
-- The replication loop on the bytes of the server: `decoder.Parse` in front of the handler.
use mathlib.Core.Path.{subst}
use logical_backup.Common.{
  ℕ, suc, ◌+◌, ◌≡◌, refl, ap, ◌∙◌, ◌≢◌, List, [], ◌∷◌, ◌++◌, map, map-append, append-nil, Option,
  none, some, All, length, collect, ◌==◌, if◌then◌else◌, arith,
}
use logical_backup.Common.Bytes.{Bytes}
use logical_backup.Common.Exec.{ok, continue-ap, continue-eq}
use logical_backup.Common.Outcome
use logical_backup.Decoder
use logical_backup.Decoder.RoundTrip.{parse-encode}
use logical_backup.Decoder.Wire.{IsWire, encode, with_raw}
use logical_backup.LogicalBackup.{
  Relations, TableBackuper, LogicalBackup, Io, Event, tick, arrives, nothing, fails, cancelled,
  handler, handle_wal, handle_heartbeat, replicate,
}
use logical_backup.LogicalBackup.Rows.{IsRow, row, handle_all}
use logical_backup.LogicalBackup.Stream.{raws, whole}
use logical_backup.LogicalBackup.Transactions.{Transaction, on_wire, row_count, InOrder, gain}
use logical_backup.Message.{Message}

-- What the loop meets while the server only sends: WAL data, heartbeats that ask for no reply, and
-- timeouts.
abbrev pub IsQuiet : Event → Type 0
IsQuiet tick = ⊥
IsQuiet (arrives wal none) = Unit {0}
IsQuiet (arrives wal (some reply_requested)) = reply_requested ≢ 1
IsQuiet nothing = Unit {0}
IsQuiet fails = ⊥
IsQuiet cancelled = ⊥

abbrev pub wal_data : List Event → List Bytes
wal_data [] = []
wal_data (arrives (some wal) beat ∷ es) = wal ∷ wal_data es
wal_data (e ∷ es) = wal_data es

-- A message as the decoder returns it.
abbrev pub as_read : Message → Message
as_read m = with_raw (encode m) m

parse-as_read : (m : Message) → IsWire m → Decoder.parse (encode m) ≡ Outcome.ok (as_read m)
parse-as_read m h =
    subst (λ s. Decoder.parse s ≡ Outcome.ok (with_raw s m)) (append-nil (encode m))
      (parse-encode m [] h)

module _ (T : TableBackuper) (io : Io) where
  beat_quiet :
      (wal : Option Bytes) (beat : Option ℕ) (b : LogicalBackup T.Store)
      → IsQuiet (arrives wal beat)
      → handle_heartbeat T io beat b ≡ ok tt b
  unfolding handle_heartbeat
  beat_quiet wal none b h = refl
  beat_quiet wal (some r) b h = ground (arith, h)

  -- The loop hands each message to the handler as the decoder reads it.
  pub replicate-handle_all :
      (es : List Event) (ms : List Message) (b : LogicalBackup T.Store)
      → All IsQuiet es
      → wal_data es ≡ map encode ms
      → All IsWire ms
      → replicate T (map (λ e. (io, e)) es) b ≡ handle_all T io (map as_read ms) b
  unfolding replicate handle_all handle_wal
  replicate-handle_all [] [] b q e h = refl
  replicate-handle_all [] (m ∷ ms) b q e h = absurd cc
  replicate-handle_all (nothing ∷ es) ms b (q, qs) e h = replicate-handle_all es ms b qs e h
  replicate-handle_all (arrives none beat ∷ es) ms b (q, qs) e h =
      continue-eq _ (λ _. replicate T (map (λ e. (io, e)) es)) (beat_quiet none beat b q)
      ∙ replicate-handle_all es ms b qs e h
  replicate-handle_all (arrives (some wal) beat ∷ es) [] b (q, qs) e h = absurd cc
  replicate-handle_all (arrives (some wal) beat ∷ es) (m ∷ ms) b (q, qs) e (h, hs) =
      let same : wal ≡ encode m = cc in
      let later : wal_data es ≡ map encode ms = cc in
      let parsed : Decoder.parse wal ≡ Outcome.ok (as_read m) =
        ap Decoder.parse same ∙ parse-as_read m h in
      rw parsed (
        continue-ap (handler T io (as_read m) b) (λ a s.
          continue-eq _ (λ _. replicate T (map (λ e. (io, e)) es)) (beat_quiet (some wal) beat s q)
          ∙ replicate-handle_all es ms s qs later hs))
  replicate-handle_all (tick ∷ es) ms b (q, qs) e h = absurd q
  replicate-handle_all (fails ∷ es) ms b (q, qs) e h = absurd q
  replicate-handle_all (cancelled ∷ es) ms b (q, qs) e h = absurd q

-- The transaction as the decoder returns its messages.
abbrev pub read_transaction : Transaction → Transaction
read_transaction x = record {
  start = record x.start { raw = encode (Message.begin x.start) };
  rows = map as_read x.rows;
  finish = record x.finish { raw = encode (Message.commit x.finish) };
}

read_one : (x : Transaction) → map as_read (on_wire x) ≡ on_wire (read_transaction x)
read_one x =
    ap (◌∷◌ (as_read (Message.begin x.start)))
      (map-append as_read x.rows (Message.commit x.finish ∷ []))

length-map : {A B : Type 0} (f : A → B) (xs : List A) → length (map f xs) ≡ length xs
length-map f [] = refl
length-map f (x ∷ xs) = ap suc (length-map f xs)

-- The messages of transactions, read.
pub as_read-on_wire :
    (xs : List Transaction)
    → map as_read (collect on_wire xs) ≡ collect on_wire (map read_transaction xs)
as_read-on_wire [] = refl
as_read-on_wire (x ∷ xs) =
    map-append as_read (on_wire x) (collect on_wire xs)
    ∙ rw (as_read-on_wire xs)
        (ap (λ l. l ++ collect on_wire (map read_transaction xs)) (read_one x))

pub row_count-read : (xs : List Transaction) → row_count (map read_transaction xs) ≡ row_count xs
row_count-read [] = refl
row_count-read (x ∷ xs) =
    rw (row_count-read xs) (ap (λ n. n + row_count xs) (length-map as_read x.rows))

as_read-IsRow : (known : Relations) (m : Message) → IsRow known m → IsRow known (as_read m)
as_read-IsRow known (Message.insert v) h = tt
as_read-IsRow known (Message.update v) h = tt
as_read-IsRow known (Message.delete v) h = tt
as_read-IsRow known (Message.relation v) h = h
as_read-IsRow known (Message.begin v) h = absurd h
as_read-IsRow known (Message.commit v) h = absurd h
as_read-IsRow known (Message.origin v) h = absurd h
as_read-IsRow known (Message.type v) h = absurd h
as_read-IsRow known (Message.truncate v) h = absurd h

All-as_read :
    (known : Relations) (ms : List Message)
    → All (IsRow known) ms
    → All (IsRow known) (map as_read ms)
All-as_read known [] h = tt
All-as_read known (m ∷ ms) (h, hs) = (as_read-IsRow known m h, All-as_read known ms hs)

pub InOrder-read :
    (known : Relations) (lsn : ℕ) (xs : List Transaction)
    → InOrder known lsn xs
    → InOrder known lsn (map read_transaction xs)
InOrder-read known lsn [] h = tt
InOrder-read known lsn (x ∷ xs) (le, wide, rows, h) =
    (le, wide, All-as_read known x.rows rows, InOrder-read known x.start.final_lsn xs h)

-- The encodings of the messages that are saved for one table, in order.
abbrev pub encodings : ℕ → List Message → List Bytes
encodings o [] = []
encodings o (m ∷ ms) = if (row m).0 == o then encode m ∷ encodings o ms else encodings o ms

-- What the server has sent of a transaction for the table under the oid `o`.
abbrev pub sent : ℕ → Transaction → List Bytes
sent o x =
    whole (encode (Message.begin x.start)) (encodings o x.rows) (encode (Message.commit x.finish))

row-as_read :
    (known : Relations) (m : Message) → IsRow known m → row (as_read m) ≡ ((row m).0, encode m)
row-as_read known (Message.insert v) h = refl
row-as_read known (Message.update v) h = refl
row-as_read known (Message.delete v) h = refl
row-as_read known (Message.relation v) h = refl
row-as_read known (Message.begin v) h = absurd h
row-as_read known (Message.commit v) h = absurd h
row-as_read known (Message.origin v) h = absurd h
row-as_read known (Message.type v) h = absurd h
row-as_read known (Message.truncate v) h = absurd h

raws-as_read :
    (known : Relations) (o : ℕ) (ms : List Message)
    → All (IsRow known) ms
    → raws o (map row (map as_read ms)) ≡ encodings o ms
raws-as_read known o [] h = refl
raws-as_read known o (m ∷ ms) (h, hs) =
    ap (λ r. raws o (r ∷ map row (map as_read ms))) (row-as_read known m h)
    ∙ ap (λ l. if (row m).0 == o then encode m ∷ l else l) (raws-as_read known o ms hs)

pub gain-read :
    (known : Relations) (o lsn : ℕ) (xs : List Transaction)
    → InOrder known lsn xs
    → collect (gain o) (map read_transaction xs) ≡ collect (sent o) xs
gain-read known o lsn [] h = refl
gain-read known o lsn (x ∷ xs) (le, wide, rows, h) =
    ap
      (λ l.
        whole (encode (Message.begin x.start)) l (encode (Message.commit x.finish))
        ++ collect (gain o) (map read_transaction xs))
      (raws-as_read known o x.rows rows)
    ∙ ap (λ l. sent o x ++ l) (gain-read known o x.start.final_lsn xs h)
