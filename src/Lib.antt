-- ===== src/Lib.antt =====
-- NextExpress: a verification library for the domain of the bulletin-board server under rust/.
--
-- The program's parts. A connection takes a node from the pool (rust/src/app/node_pool.rs) and
-- opens a session (rust/src/domain/session). The session asks for a name and a password, or
-- registers a new user, runs the rules of a logon, and serves the menu until it logs off;
-- meanwhile it charges the time budget of its user (rust/src/domain/user), joins conferences
-- (rust/src/domain/conference.rs, conference_visit.rs) and scans them. The mail rules
-- (rust/src/domain/messaging) read and write the mail of one message base through a store port.
--
-- Files and what they model:
-- - Prelude, Time, Text: shared helpers; std::time with nanoseconds as natural numbers, and
--   `floor_to_day` of session/log_format.rs; strings as lists of bytes. Time/Day is about days.
-- - Node: node.rs. Node/Pool: app/node_pool.rs, with a mutex's content as state and one method as
--   one step. Node/Pool/Refinement and Node/Pool/Signals are about them.
-- - Password, Password/Strength: password.rs.
-- - Conference, Conference/Membership: conference.rs. Joining with Resolution and Walk: the joins
--   of conference_visit.rs.
-- - ReadPointers: messaging/read_pointers.rs.
-- - User and its children: user/mod.rs and the value objects beside it, one file each;
--   User/Pointers is about the pointers of a user.
-- - User/Patch: `UserPatch` of user/commands.rs; its children Rows, Memberships, Merge and
--   Unchanged are about it, with Prelude/Keyed for lists of rows that a number keys.
-- - Session and its children: session/mod.rs (Session), transitions.rs and errors.rs (State),
--   session_policy.rs (Policy), call.rs (Call), conference_activity.rs (Activity), identity.rs
--   (Identity), budget.rs (Budget), lockout.rs (Lockout, Onboarding), lifecycle.rs (Lifecycle,
--   Onboarding), registration.rs (Registration), conferencing.rs (Conferencing), and the stored
--   commands of a password in user/commands.rs with the pending patch (Commands). An operation
--   with `&mut self` takes the session last and returns it with the operation's result.
-- - Session/Trace: a history of a session as a list of events, one per operation. Trace/Follows,
--   Trace/Invariant, Trace/Total and Trace/Ending are about all histories; Clock, Tries, Leaving,
--   Visiting, Mirrors and Saving are about time, passwords, logoff, joins, the stored commands and
--   the pending patch.
-- - Messaging: messaging/mail.rs; its children Store, Posting, Reading, Deleting, Moving and
--   Scanning are mail_store.rs, post_mail.rs with limits.rs, read_mail.rs, delete_mail.rs with
--   edit_mail_header.rs, move_mail.rs and scan_mail.rs, and Replying is reply_to_mail.rs,
--   forward_mail.rs, post_comment_to_sysop.rs and attach_file_to_mail.rs; Kept, Posts, Reads,
--   Deletes, Moves, Scans, Lowest, Passing and Forwards are about them.
-- - Menu: app/menu_command.rs. Its children Command and Number are the types and number readers of
--   that file, Join, Mail and Files the files of app/menu_command/, and Line the string operations
--   they use, on code points, since the whitespace of Unicode counts. Menu/Case is about capitals,
--   Menu/Number/Values, Menu/Line/Pieces and Menu/Numeric are about numbers.
-- - Telnet: adapters/telnet_line.rs. Line and Key are its two readers, Decoding the UTF-8 decoders of
--   the standard library that it calls. A loop runs on fuel, one round for each byte that is there and
--   one for the end. Ends, Typed with its children, and Negotiation are about it.
-- - ConferenceFlags: conference_flags.rs; Edits is about the edit of the flags.
-- - Files/Flagged, Files/Flagged/Order: files/flagged.rs. CallerLog: caller_log.rs.
-- - Examples: small inputs, and the theorems at them.
--
-- Conventions. A panic (`expect`) is `none` of an Option around the result; a Rust error is `err`.
-- Counters that saturate at u32::MAX saturate in the model; the name counter, which is added to
-- plainly, wraps. A loop over `start..=highest` is a recursion on the count of numbers left, which
-- is highest + 1 - start, so no fuel can run out. A mail store is a parameter: a record of the
-- trait's operations, with the promises of the trait's documentation as named laws, which say
-- nothing of the store after a save that fails. A BTreeSet is an ascending list. What arrives from
-- a telnet client is a list of bytes, of moments at which a read that does not wait finds nothing,
-- and of failures; writes to it succeed, and a read is not cancelled within a character.
--
-- Not modelled: adapters other than the telnet line codec (SQLite, files, hashing, clock), the
-- terminal dialogues of rust/src/app, configuration, the typed wrappers of a session, file areas,
-- and the AmiExpress sources kept for reference.
pub mod Prelude
pub mod Time
pub mod Node
pub mod Text
pub mod ReadPointers
pub mod Password
pub mod User
pub mod Files
pub mod Joining
pub mod CallerLog
pub mod Session
pub mod Conference
pub mod Messaging
pub mod Menu
pub mod ConferenceFlags
pub mod Telnet
pub mod Examples
