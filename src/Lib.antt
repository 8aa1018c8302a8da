-- ===== src/Lib.antt =====
-- The cases core: one question from an agent to a human, kept as the events written to it.
--
-- The program. A store keeps each event of a case as a row of text. `Case::fold` replays the rows
-- into the case; `Case::open` and `Case::append` check a new event against the case and give the
-- row to store. The rules say what an open, an amend and an answer must be, the names are the
-- fixed words of the contract, and a record is what one event says.
--
-- The files, and the code that each models (paths from the root of the repository):
--   Error       crates/core/src/error.rs. An error is its category; the message is for people.
--   Names       crates/core/src/names.rs. Names/RoundTrip: spelling and reading.
--   Time        crates/core/src/time.rs: the instant and its order. Time/Calendar: days and dates.
--               Time/Text: reading RFC 3339, and writing. Time/Eras, Months and Days show what the
--               dates are; the children of Time/Text read what is written.
--   Record      crates/core/src/record.rs: the structs and the accessors. Its children: Json (the
--               values of `serde_json`, a parameter with its map, and `UniqueVisitor`; Same and Unique
--               say what that gives), Signs (`unsigned_zeros`; Spelling has the text that it leaves
--               as it is), Fields, Asking and Reading (the trait `Field`, `object!` and
--               `Record::read`), Writing (the derived `Serialize`, `Record::to_json`). Codec is what
--               the writer and the fold use of these, as an interface, and Through fills it.
--               Slots, Values, Given, Written, Asked and Moved lead to RoundTrip, with Alike,
--               AskedAlike and EventAlike, where the order of the fields makes no difference to a
--               reader; Held, AskedRead and MovedRead are about what reads.
--   Case        crates/core/src/case.rs: Row, Append, Event, Problem and Case.
--   Rules       crates/core/src/rules.rs: Fields (the checks of single fields), Opening
--               (`check_open`), Amending (`check_amend`), Answering (`check_answer`).
--   Act         methods on `&mut Case` that may fail: the case comes back beside the error.
--   Replay      crates/core/src/case.rs: Taking (`start`, `take` and the handlers), Writing (`read`,
--               `stamp`, `Case::open`), Appending (`Case::append`), Folding (`Case::fold`). The
--               theorems are in its other children: Transitions is the state machine of
--               spec/vectors/README.md, and Trail the events of a case along it.
--   Freshness   crates/core/src/freshness.rs: `Case::since`, over the events in the order of their
--               seqs, which `partition_point` needs. A write past the end of the array is `none`.
--   Id          crates/id/src/lib.rs: the id of a number. Key: crates/core/src/key.rs.
--   Store       crates/core/src/store.rs: what a store gives. Poll: crates/core/src/poll.rs, the poller,
--               whose store is a function from the version that it asks about.
--   Listening   crates/core/src/listening.rs. Stats: crates/core/src/stats.rs.
--   Remote      crates/store-remote/src/shape.rs: Parts, Address and Server are about addresses,
--               Token has the tokens and the ids of stores and accounts.
--   Examples    tests, and the theorems at concrete inputs.
--
-- Numbers. A seq, a revision and a count are natural numbers; `revision += 1` wraps at 2 ^ 64, and
-- `last_seq.checked_add(1)` fails at the largest `u64`. An `i64` is an integer. Loops over a
-- vector are recursions on the list. Loops on fuel: taking the last zeros off the fraction
-- of a time, which has nine digits and is not 0, so it runs at most eight rounds and has nine; the
-- digits of an id, in an array of eleven, where `none` is a write before its start; and the shuffles
-- that fill an id up, one for each character it is short of, of which each gives at least one. Sorting
-- is by insertion: the order of the code's is the same, since equal waits are not told apart.
--
-- Text is the native string of Unicode characters; a test of every byte for an ASCII class is a
-- test of every character. A constructor or a field whose Rust name is a word of the language
-- here has another: `open_` for `open`, `entry` for `record`, and `text` for the field `data`.
--
-- Not modelled: messages of errors, the names of events as files, the grammar of JSON, which is
-- `serde_json`'s, the stores that keep rows (SQL and HTTP), the command line and the web inbox.
mod Prelude
pub mod Error
pub mod Names
pub mod Time
pub mod Record
pub mod Case
pub mod Rules
pub mod Act
pub mod Freshness
pub mod Replay
pub mod Id
pub mod Key
pub mod Store
pub mod Poll
pub mod Stats
pub mod Listening
pub mod Remote
mod Examples
