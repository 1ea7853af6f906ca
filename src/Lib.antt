-- ===== src/Lib.antt =====
-- The on-device core of Braird: the local store, the queue of local writes and its flush, the pull,
-- the merge of an archive, the repair after a pull, the schedule of prompts, the encryption of notes
-- and the lexical search.
--
-- A local write is staged by the store: it is merged onto the stored row, stamped strictly after it,
-- and its payload is queued in the `outbox` table. A flush collapses the queue to one write for each
-- record and sends those. A pull applies newer rows from the server and drops the queued writes that
-- they supersede. The merge of an archive looks up the rows of the server, chooses between them, the
-- rows of the store and those of the archive, and stages the result like any local write. After a
-- pull, notes whose book was merged elsewhere follow it; a merge of duplicate books on this device and
-- its undo stage local writes. The prompt schedule is a function of the synced questions and settings.
--
--   Prelude        numbers (`i64` as a signed integer over the native ones, with its bounds written
--                  out), lists, maps as association lists, Boolean tests
--   Json           the values of `serde_json`, and what is known of its writer and reader
--   Prompt         src/prompt.rs: `checkin_anchor`, `next_events`, `question_nudge_due`; proofs on the
--                  anchor (Prompt/Anchor), the events (Prompt/Schedule) and the nudges (Prompt/Nudge)
--   Outbox         src/sync/outbox.rs: `collapse` and `resolve_book_id`; proofs on the sticky delete
--                  (Outbox/Sticky), the merged columns (Outbox/Fields), the ids (Outbox/Ids), the
--                  tables (Outbox/Tables) and the remap (Outbox/Remap)
--   Store/Schema   src/store.rs: the table descriptors
--   Store/Cells    `json_to_sql`, `sql_to_json` and the projection of a row to its columns
--   Store/State    the tables, `get_row`, `apply_row`, `enqueue`, `clear_outbox`
--   Store/Staging  the transactions: `stage_write_inner` and its callers, `stage_import_batch`,
--                  `apply_row_rebasing_outbox`
--   Store/Rows     a read after a write, column by column in Store/Readback
--   Store/Stage    what `stage_write_inner` leaves behind, and when it fails (Store/Overflow)
--   Store/Meta     the `meta` table: the pull cursors and receipts
--   Store/Vectors  the vectors that a tombstone drops
--   Store/Backed   the invariant of the queue against the rows, and the rebase (Store/Rebase), an
--                  import (Store/Import, Store/Imported) and the batches of local writes (Store/Writes)
--   Push           src/sync/push.rs: one round of the inner loop of `flush`; the loops around it
--                  (Push/Flush), what a round may do (Push/Round), which ids it decides on
--                  (Push/Partition), the hold-back (Push/Parents, Push/Order, Push/Refused), what is
--                  sent (Push/Shape), and the whole flush (Push/Outcome, Push/Answers) with the entries
--                  of the queue (Push/Queue)
--   Pull           src/sync/pull.rs: one row of a page; the loops over rows, pages and tables
--                  (Pull/Pages), last write wins (Pull/Merge, Pull/Settle), the filled columns of a book
--                  (Pull/Fill), the cursor and the end of the loop (Pull/Rounds), and the whole pull
--                  (Pull/Outcome)
--   Snapshot       src/sync/export_import/merge.rs: the choice of one row (Snapshot/Select), its
--                  preparation (Snapshot/Prepare), the look-ups (Snapshot/Fetch) and the whole merge
--                  (Snapshot/Merge); proofs on the look-ups (Snapshot/Complete), the prepared rows
--                  (Snapshot/Prepared), the choice (Snapshot/Chosen), what is staged (Snapshot/Staged),
--                  what the store then holds (Snapshot/Taken), and the whole merge (Snapshot/Outcome)
--   Store/Listing  `list_live`, the scan of a table
--   Store/Keyed    the rows under their primary keys; one column of a row (Store/Column), and
--                  what a scan lists (Store/Listed)
--   Reconcile      src/sync/reconcile.rs: the missing books and the stranded notes (Reconcile/Stranded),
--                  the walk to a survivor (Reconcile/Survivor, Reconcile/Survivor/Walk), the merge of
--                  duplicate books (Reconcile/Duplicates) and its undo (Reconcile/Duplicates/Undo);
--                  the invariant over their transactions (Reconcile/Sound), over one repair
--                  (Reconcile/Stranded/Repair) and all of them (Reconcile/Stranded/Kept), over a merge
--                  (Reconcile/Duplicates/Gathered, Reconcile/Duplicates/Kept) and its undo
--                  (Reconcile/Duplicates/Restored); the losers (Reconcile/Duplicates/Losers), their
--                  tombstones (Reconcile/Duplicates/Retired) and the notes that move
--                  (Reconcile/Duplicates/Moved)
--   Search         src/search.rs: the stemmer (Search/Stem) and the edit distance, against the least
--                  edit script (Search/Script, Search/Distance)
--   Crypto         src/note_encryption.rs, src/byte_encryption.rs, src/primitives.rs and the book links
--                  of src/vault.rs: the envelopes of a note and a link (Crypto/Notes) and of bytes
--                  (Crypto/Bytes); src/content_tag.rs (Crypto/Tag); texts are in Crypto/Text, and a
--                  small concrete cipher is in Crypto/Plain
--   Normalize      src/normalize.rs: `normalize_for_tag`, and its characters (Normalize/Trim)
--   Library        src/library.rs: the stored forms of a status, a kind and a sort (Library/Values)
--   System         the operations of the store, flushes, pulls, repairs and merges of archives and of
--                  books in any order, as a step relation on one store
--
-- A store is a record of its tables; a transaction returns the new store, or an error and no store.
-- The server of a flush, a pull or a merge is a function from the requests before and the request to
-- its answer, so that it may depend on everything sent. SQL statements are read as what they say. A
-- pass of Reconcile that fails leaves the transactions that it has committed, so that its result is a
-- store with a value or an error. The type of JSON texts is a parameter, `Text`, with the
-- writer and the reader of `serde_json` in the record `Serde`: what was written is read back, but a
-- binary fraction may be off in its last place. An integer in a column of fractions is rounded to the
-- nearest `f64`. The ciphers and base64 (`Ciphers`), HMAC (`Macs`), the
-- Unicode tables (`Unicode`), the nonces, the readings of the clock and the keys that a scan of a table
-- finds (`Scan`) are parameters too.
--
-- The remap walk and the walk to a survivor take twenty hops, as in the source. The loop over the pages of a pull has fuel for
-- 2^64 pages: each page but the last moves the cursor, which is an `i64`.
--
-- Not modelled: SQLite's own failures, the network, the reader of an archive (a merge starts from its
-- normalised rows), the scores of a search, the tags, content tags, signals and covers of a
-- reconciliation, the foreign-function interface, and the parts of the core
-- that no module above names.

mod Prelude
pub mod Prompt
pub mod Json
pub mod Outbox
pub mod Store
pub mod Push
pub mod Pull
pub mod System
pub mod Search
pub mod Crypto
pub mod Normalize
pub mod Snapshot
pub mod Reconcile
pub mod Library
