-- ===== src/Daemon/Crash.antt =====
-- internal/daemon/daemon.go, `DrainSpool`: a daemon that dies while it replays the spool, and the
-- one that is started after it.
use shcr.Base.{
  Bool, false, ◌||◌, if◌then◌else◌, Bool-cases, inl, inr, arith, Option, none, some, List, [], ◌++◌,
  ◌≡◌, refl, sym, ap, ◌∙◌,
}
use shcr.Base.Bytes.{Bytes}
use shcr.Event.{Codec}
use shcr.Redact.{Rule}
use shcr.Histfile.Scanner.{scan_within}
use shcr.Store.Types.{Db}
use shcr.Store.Materialized.{IsView}
use shcr.Daemon.{
  spool_line_limit, Json, State, Disk, drain_lines, drain_file, drain_fresh, drain_spool,
  handle_conn,
}
use shcr.Daemon.Replay.{replay, drain_lines-replay, handle_conn-replay, replay_again, replay-IsView}

abbrev lines_in : Option Bytes → List Bytes
lines_in none = []
lines_in (some text) = (scan_within spool_line_limit text).0

-- The file has a line of four megabytes or more, behind which nothing is read.
abbrev pub stuck : Option Bytes → Bool
stuck none = false
stuck (some text) = (scan_within spool_line_limit text).1

-- The files that a drain leaves: none, but for the spool where it is stuck in the other one.
abbrev pub files_left : Disk → Disk
files_left disk =
    if stuck disk.draining
    then record { spool = disk.spool; draining = none }
    else record { spool = none; draining = none }

module _ (json : Json) (codec : Codec) (rules : List Rule) where
  drain_file-replay :
      (file : Option Bytes) (d : State)
      → (drain_file json codec rules file d).0.db ≡ replay json codec rules (lines_in file) d.db
  unfolding drain_file replay
  drain_file-replay none d = refl
  drain_file-replay (some text) d =
      drain_lines-replay json codec rules (scan_within spool_line_limit text).0 d 0

  drain_fresh-replay :
      (file : Option Bytes) (d : State)
      → (drain_fresh json codec rules file d).1.db ≡ replay json codec rules (lines_in file) d.db
  unfolding drain_fresh replay
  drain_fresh-replay none d = refl
  drain_fresh-replay (some text) d = drain_file-replay (some text) d

  -- What a drain makes of a store.
  abbrev drained_db : Disk → Db → Db
  drained_db disk db =
      let first = replay json codec rules (lines_in disk.draining) db in
      if stuck disk.draining then first else replay json codec rules (lines_in disk.spool) first

  drain_file-stuck :
      (file : Option Bytes) (d : State) → (drain_file json codec rules file d).2 ≡ stuck file
  unfolding drain_file
  drain_file-stuck none d = refl
  drain_file-stuck (some text) d = refl

  drain_fresh-stuck :
      (file : Option Bytes) (d : State)
      → ((drain_fresh json codec rules file d).0 ≡ record { spool = none; draining = none })
        × ((drain_fresh json codec rules file d).3 ≡ stuck file)
  unfolding drain_fresh
  drain_fresh-stuck none d = (refl, refl)
  drain_fresh-stuck (some text) d = (refl, drain_file-stuck (some text) d)

  drain_spool-replay :
      (disk : Disk) (d : State) → (drain_spool json codec rules disk d).1.db ≡ drained_db disk d.db
  unfolding drain_spool
  drain_spool-replay disk d =
      let d₁ = (drain_file json codec rules disk.draining d).0 in
      let first = drain_file-replay disk.draining d in
      rw (drain_file-stuck disk.draining d) (elim (Bool-cases (stuck disk.draining)) [
        | inl long ↦ rw long first
        | inr fits ↦ rw fits (
            drain_fresh-replay disk.spool d₁
            ∙ ap (replay json codec rules (lines_in disk.spool)) first)
      ])

  -- The files that a drain leaves, and whether it ends in an error.
  drain_spool-stuck :
      (disk : Disk) (d : State)
      → ((drain_spool json codec rules disk d).0 ≡ files_left disk)
        × ((drain_spool json codec rules disk d).3 ≡ (stuck disk.draining || stuck disk.spool))
  unfolding drain_spool
  drain_spool-stuck disk d =
      let fresh = drain_fresh-stuck disk.spool (drain_file json codec rules disk.draining d).0 in
      rw (drain_file-stuck disk.draining d) (elim (Bool-cases (stuck disk.draining)) [
        | inl long ↦ rw long (refl, refl)
        | inr fits ↦ rw fits fresh
      ])

  -- The files and the store that a daemon leaves that dies inside `DrainSpool`: behind some of the
  -- lines of the file that an earlier one left, between the two files, or behind some of the lines
  -- of the spool.
  pub data Crashed (disk : Disk) (d : State) : Disk → Db → Type 0 where
    in_leftover :
        (text : Bytes) (front back : List Bytes)
        → disk.draining ≡ some text
        → (scan_within spool_line_limit text).0 ≡ front ++ back
        → Crashed disk d disk (drain_lines json codec rules front d 0).0.db
    between :
        (drain_file json codec rules disk.draining d).2 ≡ false
        → Crashed disk d
            (record { spool = disk.spool; draining = none })
            (drain_file json codec rules disk.draining d).0.db
    in_fresh :
        (text : Bytes) (front back : List Bytes)
        → (drain_file json codec rules disk.draining d).2 ≡ false
        → disk.spool ≡ some text
        → (scan_within spool_line_limit text).0 ≡ front ++ back
        → Crashed disk d
            (record { spool = none; draining = some text })
            (drain_lines json codec rules front
              (drain_file json codec rules disk.draining d).0
              0).0.db

  -- One daemon after another dies in it.
  pub data Crashes (disk : Disk) (d : State) : Disk → Db → Type 0 where
    once : {disk' : Disk} {db' : Db} → Crashed disk d disk' db' → Crashes disk d disk' db'
    again :
        {disk' disk'' : Disk} {db' db'' : Db} (triggers : List Bytes)
        → Crashes disk d disk' db'
        → Crashed disk' (record { db = db'; triggers = triggers }) disk'' db''
        → Crashes disk d disk'' db''

  -- What the next drain comes to is not changed.
  record SameDrain (disk : Disk) (db : Db) (disk' : Disk) (db' : Db) : Type 0 where
    view : IsView codec db'
    store : drained_db disk' db' ≡ drained_db disk db
    files : files_left disk' ≡ files_left disk
    errors : (stuck disk'.draining || stuck disk'.spool) ≡ (stuck disk.draining || stuck disk.spool)

  Crashed-SameDrain :
      (disk : Disk) (d : State) {disk' : Disk} {db' : Db}
      → IsView codec d.db
      → Crashed disk d disk' db'
      → SameDrain disk d.db disk' db'
  Crashed-SameDrain disk d v (in_leftover text front back file lines) = record {
    view =
        rw (drain_lines-replay json codec rules front d 0)
          (replay-IsView json codec rules front d.db v);
    store =
        ap
          (λ db.
            if stuck disk.draining then db else replay json codec rules (lines_in disk.spool) db)
          (rw (drain_lines-replay json codec rules front d 0, file, lines)
            (replay_again json codec rules front back d.db v));
    files = refl;
    errors = refl;
  }
  Crashed-SameDrain disk d v (between read) =
      let fits : stuck disk.draining ≡ false = sym (drain_file-stuck disk.draining d) ∙ read in
      record {
        view =
            rw (drain_file-replay disk.draining d)
              (replay-IsView json codec rules (lines_in disk.draining) d.db v);
        store = rw (drain_file-replay disk.draining d, fits) (unfold replay in refl);
        files = rw fits refl;
        errors = rw fits refl;
      }
  Crashed-SameDrain disk d v (in_fresh text front back read file lines) =
      let fits : stuck disk.draining ≡ false = sym (drain_file-stuck disk.draining d) ∙ read in
      let db = replay json codec rules (lines_in disk.draining) d.db in
      let w = replay-IsView json codec rules (lines_in disk.draining) d.db v in
      let same = replay_again json codec rules front back db w in
      record {
        view =
            rw (drain_lines-replay, drain_file-replay) (replay-IsView json codec rules front db w);
        store =
            rw (drain_lines-replay, drain_file-replay, fits, file, lines)
              (elim (Bool-cases (scan_within spool_line_limit text).1) [
                | inl long ↦ rw long same
                | inr short ↦ rw short (unfold replay in same)
              ]);
        files = rw fits (elim (Bool-cases (scan_within spool_line_limit text).1) [
          | inl long ↦ rw long refl
          | inr short ↦ rw short refl
        ]);
        errors = rw (fits, file) (ground arith);
      }

  Crashes-SameDrain :
      (disk : Disk) (d : State) {disk' : Disk} {db' : Db}
      → IsView codec d.db
      → Crashes disk d disk' db'
      → SameDrain disk d.db disk' db'
  Crashes-SameDrain disk d v (once crash) = Crashed-SameDrain disk d v crash
  Crashes-SameDrain disk d v (again {disk' = disk'} {db' = db'} triggers crashes crash) =
      let first = Crashes-SameDrain disk d v crashes in
      let second =
        Crashed-SameDrain disk' (record { db = db'; triggers = triggers }) first.view crash in
      record {
        view = second.view;
        store = second.store ∙ first.store;
        files = second.files ∙ first.files;
        errors = second.errors ∙ first.errors;
      }

  -- However often a daemon dies inside `DrainSpool`, at whatever lines, the first one that gets
  -- through it leaves the store that a daemon leaves which is not interrupted, if the rows of the
  -- store were what its log derives. Neither file is left, but for the spool where the file left
  -- behind at first has a line of four megabytes or more; and there is an error if, and only if, one
  -- of the two files had such a line.
  pub drain_spool_recovers :
      (disk : Disk) (d : State) (disk' : Disk) (db' : Db) (triggers : List Bytes)
      → IsView codec d.db
      → Crashes disk d disk' db'
      → ((drain_spool json codec rules disk' (record { db = db'; triggers = triggers })).1.db
          ≡ (drain_spool json codec rules disk d).1.db)
        × ((drain_spool json codec rules disk' (record { db = db'; triggers = triggers })).0
            ≡ files_left disk)
        × ((drain_spool json codec rules disk' (record { db = db'; triggers = triggers })).3
            ≡ (stuck disk.draining || stuck disk.spool))
  drain_spool_recovers disk d disk' db' triggers v crashes =
      let d' : State = record { db = db'; triggers = triggers } in
      let same = Crashes-SameDrain disk d v crashes in
      let (files, errors) = drain_spool-stuck disk' d' in
      (
        drain_spool-replay disk' d' ∙ same.store ∙ sym (drain_spool-replay disk d),
        files ∙ same.files,
        errors ∙ same.errors,
      )

  -- A line that waited in the spool leaves in the store what it would have left had it come over
  -- the socket.
  pub drain_spool-handle_conn :
      (text : Bytes) (d : State)
      → (drain_spool json codec rules (record { spool = some text; draining = none }) d).1.db
        ≡ (handle_conn json codec rules (lines_in (some text)) d).db
  unfolding replay
  drain_spool-handle_conn text d =
      drain_spool-replay (record { spool = some text; draining = none }) d
      ∙ sym (handle_conn-replay json codec rules (lines_in (some text)) d)
