-- ===== src/Sync/Wire.antt =====
-- A batch as it travels: reading the lines of an encoded batch gives its events.
use shcr.Base.{
  ℕ, ◌+◌, Bool, true, false, some, List, [], ◌∷◌, ◌++◌, if◌then◌else◌, ◌≡◌, ◌≢◌, refl, ap, ◌∙◌, inl,
  inr, Bool-cases, Option-cases, In, All, leb, length, none,
}
use shcr.Base.Bytes.{Bytes}
use shcr.Event.{Event, Codec}
use shcr.Store.Types.{Db}
use shcr.Store.Log.{ok, bad_payload, insert_remote_event, append_event}
use shcr.Store.Growth.{Result-cases}
use shcr.Histfile.Text.{is_blank}
use shcr.Histfile.Scanner.{scan_within, scan_within-append, drop_cr}
use shcr.Sync.Pull.{Reader, Decoding, apply_lines, apply_scanned, batch_line_limit}
use shcr.Sync.Push.{Encoding, encode_events}

-- What encoding/json and the cipher have for the given events: a line without control characters
-- that is not blank and is read back, and a batch that is decrypted to what was encrypted.
pub record WireLaws (encoding : Encoding) (decoding : Decoding) (events : List Event) : Type 0 where
  pub one_line :
      (e : Event) (line : Bytes)
      → In e events
      → encoding.write_event e ≡ some line
      → All (λ c. c ≢ 10) line × (drop_cr line ≡ line) × (is_blank line ≡ false)
  pub read_back :
      (e : Event) (line : Bytes)
      → In e events
      → encoding.write_event e ≡ some line
      → decoding.read_event line ≡ some e
  pub opened :
      (plain sealed : Bytes)
      → encoding.encrypt plain ≡ some sealed
      → decoding.decrypt sealed ≡ some plain

-- The line of an event fills the buffer of the scanner that is to read it.
unfoldable pub is_long : Encoding → Event → Bool
is_long encoding e = elim (encoding.write_event e) [
  | none ↦ false
  | some line ↦ leb batch_line_limit (length line)
]

is_long-written :
    (encoding : Encoding) (e : Event) (line : Bytes)
    → encoding.write_event e ≡ some line
    → is_long encoding e ≡ leb batch_line_limit (length line)
unfolding is_long
is_long-written encoding e line written = rw (written, is_long) refl

-- `InsertRemoteEvent` on one event after another, until one is refused or its line is too long: the
-- store, how many were new, and whether one was refused or too long.
unfoldable pub insert_all : Encoding → Codec → List Event → Db → ℕ → Db × ℕ × Bool
insert_all encoding codec [] db n = (db, n, false)
insert_all encoding codec (e ∷ es) db n =
    let (db', result) = insert_remote_event codec db e in
    if is_long encoding e then (db, n, true) else elim result [
      | bad_payload ↦ (db', n, true)
      | ok inserted ↦ insert_all encoding codec es db' (if inserted then n + 1 else n)
    ]

module _ (reader : Reader) (encoding : Encoding) (decoding : Decoding) (codec : Codec) where
  encode_events-nil : (plain : Bytes) → encode_events encoding [] ≡ some plain → plain ≡ []
  unfolding encode_events
  encode_events-nil plain made = cc made

  encode_events-cons :
      (e : Event) (es : List Event) (plain : Bytes)
      → encode_events encoding (e ∷ es) ≡ some plain
      → (line : Bytes) × (rest : Bytes) × (encoding.write_event e ≡ some line)
        × (encode_events encoding es ≡ some rest)
        × (plain ≡ line ++ 10 ∷ rest)
  unfolding encode_events
  encode_events-cons e es plain made = elim (Option-cases (encoding.write_event e)) [
    | inl bad ↦ cc (rw (bad, encode_events) at made)
    | inr (line, written) ↦ elim (Option-cases (encode_events encoding es)) [
      | inl bad ↦ cc (rw (written, bad, encode_events) at made)
      | inr (rest, more) ↦
          let same : some (line ++ 10 ∷ rest) ≡ some plain =
            rw (written, more, encode_events) at made in
          (line, rest, written, more, cc same)
    ]
  ]

  rest_of_laws :
      (e : Event) (es : List Event)
      → WireLaws encoding decoding (e ∷ es)
      → WireLaws encoding decoding es
  rest_of_laws e es laws = record {
    one_line = λ a line h. laws.one_line a line (inr h);
    read_back = λ a line h. laws.read_back a line (inr h);
    opened = laws.opened;
  }

  -- A peer that reads an encoded batch inserts its events, in their order and no others, up to the
  -- first that is refused or whose line fills the scanner's buffer; there it stops with an error.
  pub apply_scanned-encode_events :
      (es : List Event) (plain : Bytes) (db : Db) (n : ℕ)
      → WireLaws encoding decoding es
      → encode_events encoding es ≡ some plain
      → apply_scanned reader decoding codec (scan_within batch_line_limit plain) db n
        ≡ insert_all encoding codec es db n
  unfolding apply_scanned apply_lines insert_all
  apply_scanned-encode_events [] plain db n laws made =
      rw (encode_events-nil plain made) (unfold scan_within in refl)
  apply_scanned-encode_events (e ∷ es) plain db n laws made =
      let (line, rest, written, more, is) = encode_events-cons e es plain made in
      let (one, no_cr, not_blank) = laws.one_line e line (inl refl) written in
      let read = laws.read_back e line (inl refl) written in
      let lines =
        ap (scan_within batch_line_limit) is ∙ scan_within-append batch_line_limit line rest one in
      let later = apply_scanned-encode_events es rest (append_event codec db e true).0 in
      let size = is_long-written encoding e line written in
      elim (Bool-cases (leb batch_line_limit (length line))) [
        | inl long ↦ rw lines (rw (size, long, insert_all) refl)
        | inr short ↦ elim (Result-cases (append_event codec db e true).1) [
          | inl bad ↦
              rw lines (rw (size, short, no_cr, not_blank, read, bad, apply_lines, insert_all) refl)
          | inr (inserted, good) ↦ rw lines (
              rw (size, short, no_cr, not_blank, read, good, apply_lines, insert_all)
                (later (if inserted then n + 1 else n) (rest_of_laws e es laws) more))
        ]
      ]
