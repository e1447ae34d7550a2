-- ===== src/Tests/Sync.antt =====
-- A storage that is a table, a layout of one letter, and an engine on a laptop.
use shcr.Base.{
  ℕ, ◌+◌, ◌-◌, ◌*◌, ◌/◌, true, false, Option, none, some, [], ◌∷◌, if◌then◌else◌, ◌≡◌, ◌≢◌, refl,
  sym, ap, ◌∙◌, inl, inr, arith, In,
}
use shcr.Base.Bytes.{Bytes, codes, bytes_eq, bytes_eq_iff, bytes_eq_refl, bytes_lt}
use shcr.Base.Int.{pos}
use shcr.Base.Table.{Table, lookup, upsert, lookup-upsert}
use shcr.Base.Sort.{sort, insert}
use shcr.Event.{Event}
use shcr.Store.Types.{Db, empty_db}
use shcr.Store.Recompute.{recompute, gather, derive, events_of}
use shcr.Histfile.Text.{is_blank, trim_left, split_lines}
use shcr.Histfile.Scanner.{scan_within, scanned_within, drop_cr, scan_lines, scanned}
use shcr.Store.Log.{append_event, pending, unsynced_events, append_local}
use shcr.Store.Cursors.{cursor, save_cursor}
use shcr.Sync.Keys.{
  TimeLayout, millisecond, truncate_ms, key_time, batch_key_time, batch_prefix, manifest_key,
  new_batch_key, base_from, cut,
}
use shcr.Sync.KeyOrder.{LayoutLaws, new_batch_key_rises}
use shcr.Sync.Pull.{
  Manifest, Reader, Fetched, Decoding, pull_peer, load_manifest, apply_batch, apply_lines,
  apply_scanned, batch_line_limit, pull_keys, next_cursor,
}
use shcr.Sync.PeerCursor.{pull_peer_loses_nothing}
use shcr.Sync.Consumed.{Consumed}
use shcr.Sync.Push.{Storage, Encoding, Engine, Draw, push_once, encode_events}
use shcr.Sync.Wire.{WireLaws, insert_all, apply_scanned-encode_events}
use shcr.Sync.Drain.{Ended, push_once_drains}
use shcr.Sync.Published.{StorageLaws, PushOutcome, push_batch_publishes}
use shcr.Tests.Store.{toy, started}

unfoldable pub parse_letter : Bytes → Option ℕ
parse_letter (c ∷ []) = some ((c - 100) * millisecond)
parse_letter _ = none

-- The milliseconds from 0 to 100 as one byte.
abbrev pub letters : TimeLayout
letters = record { format = λ t. (t / millisecond + 100) ∷ []; parse = parse_letter }

letters_laws : LayoutLaws letters 100000000
unfolding parse_letter bytes_lt truncate_ms
letters_laws = record {
  parse_format = λ t le. ground arith;
  same_length = λ t u le le'. refl;
  in_order = λ t u lt le. ground arith;
  no_slash = λ t le. (ground arith, tt);
  no_underscore = λ t le. (ground arith, tt);
}

-- Two batches in one millisecond, of which the second has the smaller suffix.
new_batch_key_rises_example :
    bytes_lt (new_batch_key letters (codes "a") (codes "99") 5000300 []) (
      new_batch_key letters
        (codes "a")
        (codes "11")
        5000900
        (new_batch_key letters (codes "a") (codes "99") 5000300 []))
    ≡ true
unfolding key_time batch_key_time new_batch_key batch_prefix base_from cut parse_letter truncate_ms
new_batch_key_rises_example =
    new_batch_key_rises letters 100000000 letters_laws (codes "a") (codes "99") (codes "11") []
      5000300 5000900 (ground arith) (omega arith) (omega arith)

fetch : Option Bytes → Fetched
fetch none = Fetched.not_exist
fetch (some content) = Fetched.found content

abbrev table_storage : Storage (Table Bytes)
table_storage = record {
  reader = λ objects. record {
    get = λ key. fetch (lookup key objects);
    list = λ prefix after. some [];
    children = λ prefix. some [];
  };
  put = λ objects key content. (upsert key content objects, true);
}

table_stored :
    (objects objects' : Table Bytes) (key content : Bytes)
    → table_storage.put objects key content ≡ (objects', true)
    → (table_storage.reader objects').get key ≡ Fetched.found content
unfolding fetch
table_stored objects objects' key content e =
    let is : objects' ≡ upsert key content objects = sym (ap (λ r. r.0) e) in
    let here : lookup key (upsert key content objects) ≡ some content =
      lookup-upsert key key content objects ∙ (rw (bytes_eq_refl key) refl) in
    rw is (ap fetch here)

table_kept :
    (objects objects' : Table Bytes) (key content other : Bytes)
    → table_storage.put objects key content ≡ (objects', true)
    → other ≢ key
    → (table_storage.reader objects').get other ≡ (table_storage.reader objects).get other
table_kept objects objects' key content other e apart =
    let is : objects' ≡ upsert key content objects = sym (ap (λ r. r.0) e) in
    let differ : bytes_eq key other ≡ false = ground (arith, bytes_eq_iff key other, apart) in
    let there : lookup other (upsert key content objects) ≡ lookup other objects =
      lookup-upsert key other content objects ∙ (rw differ refl) in
    rw is (ap fetch there)

table_laws : StorageLaws table_storage
table_laws = record { stored = table_stored; others_kept = table_kept }

unfoldable pub encode_manifest : Bytes → Bytes → Bytes → Option Bytes
encode_manifest latest [] [] = some latest
encode_manifest latest _ _ = none

-- A manifest without the other two texts is its batch, and an event its id.
abbrev pub plain_encoding : Encoding
plain_encoding = record {
  encrypt = λ p. some (0 ∷ p);
  write_event = λ e. some e.event_id;
  write_manifest = λ m. encode_manifest m.latest_batch m.updated_at m.hostname_hint;
}

unfoldable pub decrypt_plain : Bytes → Option Bytes
decrypt_plain [] = none
decrypt_plain (c ∷ p) = some p

abbrev pub plain_decoding : Decoding
plain_decoding = record {
  decrypt = decrypt_plain;
  read_event = λ line. if bytes_eq line (codes "e1") then some started else none;
  read_manifest = λ b. some (record { latest_batch = b; updated_at = []; hostname_hint = [] });
}

texts_back :
    (latest updated hint text : Bytes)
    → encode_manifest latest updated hint ≡ some text
    → plain_decoding.read_manifest text
      ≡ some (record { latest_batch = latest; updated_at = updated; hostname_hint = hint })
unfolding encode_manifest
texts_back latest [] [] text h = cc h
texts_back latest [] (c ∷ hint) text h = cc h
texts_back latest (c ∷ updated) [] text h = cc h
texts_back latest (c ∷ updated) (d ∷ hint) text h = cc h

manifest_back :
    (m : Manifest) (text : Bytes)
    → plain_encoding.write_manifest m ≡ some text
    → plain_decoding.read_manifest text ≡ some m
manifest_back m text h = texts_back m.latest_batch m.updated_at m.hostname_hint text h

abbrev pub laptop : Engine
laptop = record { device_id = codes "laptop"; hostname = codes "box"; share_hostname = false }

abbrev pub waiting_db : Db
waiting_db = (append_local toy empty_db started).0

abbrev pub draw : Draw
draw = record { now = 5000000; updated_at = []; suffix = some (codes "00") }

line_is :
    (e : Event) (line : Bytes)
    → In e (started ∷ [])
    → plain_encoding.write_event e ≡ some line
    → (line ≡ codes "e1") × (e ≡ started)
line_is e line (inl q) written =
    let id : e.event_id ≡ codes "e1" = ap (λ a. a.event_id) q in
    let same : e.event_id ≡ line = cc written in (sym same ∙ id, q)
line_is e line (inr q) written = absurd q

wire : WireLaws plain_encoding plain_decoding (started ∷ [])
unfolding bytes_eq decrypt_plain is_blank trim_left drop_cr
wire = record {
  one_line = λ e line h written. rw (line_is e line h written).0 (ground arith, refl, refl);
  read_back =
      λ e line h written. rw (line_is e line h written).0 (rw (line_is e line h written).1 refl);
  opened = λ plain sealed h. let same : 0 ∷ plain ≡ sealed = cc h in rw (sym same) refl;
}

apply_scanned-encode_events_example :
    apply_scanned
      (table_storage.reader [])
      plain_decoding
      toy
      (scan_within batch_line_limit (codes "e1\n"))
      empty_db
      0
    ≡ insert_all plain_encoding toy (started ∷ []) empty_db 0
unfolding encode_events
apply_scanned-encode_events_example =
    apply_scanned-encode_events (table_storage.reader []) plain_encoding plain_decoding toy
      (started ∷ []) (codes "e1\n") empty_db 0 wire refl

push_once_drains_example : Ended table_storage plain_encoding plain_decoding toy letters laptop (
    push_once table_storage plain_encoding plain_decoding toy letters laptop
      ((draw, false) ∷ (draw, false) ∷ [])
      []
      waiting_db
      0)
unfolding pending append_event recompute gather derive sort insert lookup upsert bytes_eq bytes_lt
    events_of
push_once_drains_example =
    push_once_drains table_storage plain_encoding plain_decoding toy letters laptop
      ((draw, false) ∷ (draw, false) ∷ []) [] waiting_db 0 (omega arith)

push_batch_publishes_example :
    PushOutcome table_storage plain_encoding plain_decoding toy letters laptop table_laws
      manifest_back [] waiting_db draw empty_db
unfolding pending unsynced_events append_event recompute gather derive sort insert lookup upsert
    bytes_eq bytes_lt events_of
push_batch_publishes_example =
    push_batch_publishes table_storage plain_encoding plain_decoding toy letters laptop table_laws
      manifest_back [] waiting_db draw empty_db wire

abbrev batch : Bytes
batch = codes "devices/laptop/batches/i_00.jsonl.enc"

-- A peer's manifest and its one batch.
abbrev peer_reader : Reader
peer_reader = record {
  get = λ key.
      if bytes_eq key (manifest_key (codes "laptop"))
      then Fetched.found batch
      else Fetched.found (0 ∷ codes "e1\n");
  list = λ prefix after. some (batch ∷ []);
  children = λ prefix. some (codes "laptop" ∷ []);
}

pull_peer_loses_nothing_example :
    Consumed peer_reader plain_decoding toy batch
      (pull_peer peer_reader plain_decoding toy (codes "laptop") (pos 9) empty_db).0
unfolding cursor save_cursor pull_peer load_manifest manifest_key pull_keys next_cursor apply_batch
    apply_lines apply_scanned scan_within scanned_within scan_lines scanned split_lines drop_cr
    is_blank trim_left decrypt_plain append_event recompute gather derive sort insert lookup upsert
    bytes_eq bytes_lt events_of
pull_peer_loses_nothing_example =
    pull_peer_loses_nothing peer_reader plain_decoding toy (codes "laptop") (pos 9) empty_db
      (batch ∷ []) batch refl (tt, tt) (inl refl) refl refl
