-- ===== src/Lib.antt =====
-- Shellcrumbs (`shcr`): shell history as an event log, a model of internal/ and theorems about it.
--
-- The shell hooks send a start and an end event for each command. The daemon writes them to an event
-- log in SQLite, and derives from it one row for each command; history files are imported as events
-- too, and the machines of one user exchange their events through shared storage.
--
-- - Base and its children: what the modules share. A Go string or byte slice is a list of byte
--   values (`Bytes`), an int64 an integer with its wrap-around written out (`wrap64`), a SQL table
--   with a text key a list of pairs in the order of insertion (`Table`), ORDER BY an insertion sort.
-- - Event: internal/event/event.go. JSON is a record of functions, `Codec`, about which nothing is
--   assumed but what a theorem's hypotheses say.
-- - Store and its children: internal/store/store.go. `Db` holds the tables that the migrations of
--   schema.go create; a SQL statement is read as its meaning on the lists of rows, and a failing
--   statement of the driver is not modelled. `append_event` is `appendEvent` with its transaction:
--   what `recompute` refuses leaves the store as it was.
-- - Histfile and its children: internal/histfile/histfile.go, behind the reading of the file. Times
--   are nanoseconds since 1970. The loops over lines have the number of lines for fuel, and each
--   round takes at least one. `Histfile.Scanner` is bufio's scanner over lines with its limit, for
--   history files, batches, spool files and rules.
-- - Redact and its children: internal/redact/redact.go. A regular expression is its two methods,
--   `Regexp`, about which nothing is assumed.
-- - Sync and its children: internal/sync. `Pull` and `Push` are engine.go, over a storage, a cipher
--   and JSON that are parameters; `Loop` is loop.go, the loop of `Run` as a relation between its
--   variables and the times of its attempts. The list of rounds of `push_once` is its fuel.
-- - Rank and its children: internal/rank, the exit codes, the order of candidates, the decayed
--   counter, the matching of terms and the scores. Floating-point numbers are a type with the
--   operations that the code uses.
-- - Store.Stats with Counts and Refresh: internal/store/stats.go, the ranking cache.
-- - Daemon and its children: internal/daemon/daemon.go. The lines of a connection and the spool
--   files are lists of bytes; `ingest` is split where the store comes in. The store, the files and
--   what `OnTrigger` has been told are passed from call to call. Of a crash it is assumed that it
--   falls between two lines, since the store's transactions are all or nothing.
-- - Store.Queries and Store.Dashboard: the reads of internal/store/store.go. MATCH of FTS5 is a
--   function of a query and a text; the text of a filter is taken to be valid UTF-8.
-- - Histimport and its children: internal/histimport/histimport.go, over any digest.
-- - Store.Candidates: internal/store/candidates.go and acceptance.go.
-- - Tui and its children: internal/tui/ranking.go, the choice and order of the picker's rows.
-- - Theme and its children: internal/theme/format.go, on lists of runes; graphemes and widths are
--   those of other packages.
-- - Sync.Files: internal/sync/storage.go, the backend in a directory, as a table of its files.
-- - Sync.Gcs with Names and Listing: internal/sync/gcs.go, the bucket, behind a server that answers requests.
--   A request has six attempts; a listing has as many rounds as its fuel says, and each takes a page.
-- - Sync.Cycle with Queue and Empties: `SyncOnce` and `ensureKey` of internal/sync/engine.go, and
--   the channel of triggers of loop.go.
-- - Redact.Load: the reading of the rules in internal/redact/redact.go.
-- - Export: internal/export/export.go, over the encoders of JSON and CSV.
-- - Ipc: internal/ipc/ipc.go, the hook's side of the socket and of the spool file.
-- - Web: internal/web/sse.go, the broker behind the dashboard's stream of changes.
-- - Web.Api and Web.Settings: internal/web/api.go, the handlers behind the reading of a request, with
--   internal/config/config.go.
-- - Tests: runs on concrete inputs.
--
-- Not modelled: most of the terminal interface, the web server, the command line, the shell hooks,
-- the service manager and the cryptography, which are I/O or wrap other packages.
pub mod Base
pub mod Daemon
pub mod Event
pub mod Export
pub mod Histfile
pub mod Histimport
pub mod Ipc
pub mod Rank
pub mod Redact
pub mod Store
pub mod Sync
pub mod Tests
pub mod Theme
pub mod Tui
pub mod Web
