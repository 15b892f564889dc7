-- ===== src/Lib.antt =====
-- A verification library for parts of Grenat, a language for programs that call models and services.
--
-- Parts and files, by the paths of the repository:
-- * crates/grenat_limits (rate.rs, bucket.rs, slots.rs, limiter.rs) is Limits: a token bucket, a queue
--   for slots and the limiter that joins them. `Limits.Limiter.advance` is one atomic step of
--   `Limiter::acquire`; Limits/Limiter/Calls.antt interleaves the steps of any number of calls, and
--   Limits/Limiter/Times.antt follows one call while others change the limiter. Instants and
--   durations are natural numbers of nanoseconds with no upper bound, and tickets do not wrap.
--   Floating point numbers are a record, `Limits.Rate.Floats`, with the one law the code relies on.
-- * crates/grenat_watch/src/glob.rs is Watch.Glob: segments, wildcards, and which directories a scan
--   enters. The matcher's loop runs on fuel, `(length name + 2) * (length tokens + 1)`, which the
--   proof of `matches_name_iff` shows to be enough.
--   Watch.Glob.Expand expands braces, on fuel of the text's length and one more, since each expansion
--   removes a pair of braces; Watch.Glob.Parse is `Glob::parse` and `Glob::matches`. A text is the list
--   of its code points, a refusal one constructor for each message.
-- * crates/grenat_watch/src/settle.rs is Watch.Settle: what a watch remembers of files between scans.
--   Maps are association lists, the order of paths, by which reports are sorted, is a parameter.
--   Reading the file system (scan.rs, open.rs, digest.rs) is not modelled.
-- * crates/grenat_package/src/version.rs is Package.Version: versions, requirements and the highest
--   version allowed. The next major or minor number wraps at 2^64, as a release build's does.
-- * crates/grenat_serve (calendar.rs, cron.rs) is Serve: Serve.Calendar is the calendar, for times from
--   the epoch on, so on natural numbers; Serve.Cron is `Cron::next`, whose loop keeps the code's number
--   of tries as its fuel, and Serve.Cron.Parse is `Cron::parse`. The loop over a range runs on fuel, the
--   number of values in the range, which is enough since the step is at least 1.
-- * crates/grenat_lexer (token.rs, lexer.rs, strings.rs) is Lexer. Lexer.Keywords is the keyword table and
--   spans, Lexer.Token the tokens, Lexer.Source a text by the positions of its bytes, Lexer.Scan the
--   machine and its parts, Lexer.Strings strings, interpolations and heredocs, Lexer.Run the loop and
--   `lex`. The functions of the code are methods that change the machine; here each takes one machine and
--   gives the next, under the code's name but for `new` (fresh), `newline` (end_line), `ident` (word), `ivar`
--   (instance_variable), `colon` (colons) and `punct` (punctuation). What Unicode says of characters and
--   the reading of a float are the record `Lexer.Scan.Unicode`. A position inside of a character, where
--   slicing panics, counts as the next one's.
--   A run of a source of n bytes has fuel for (n + 1) * (n + 2) rounds, since a heredoc makes the machine go
--   back at a line's end, though each time to a later place than before; interpolations nest n + 1 deep at
--   most. That both are enough is part of `lex-IsLexed`. The loops over the lines of a heredoc or a
--   macro, and over a string, have fuel for each byte and one more. Spans wrap at 2^32.
-- * crates/grenat_ssh is Ssh. Ssh.Quote is quote.rs, the command line of a remote command. Ssh.Quote.Shell
--   describes how a POSIX shell splits a line into words, and refuses a line that asks it for more: by one of
--   the characters it may act on, outside of quotes, or by a reserved word at the start.
--   Ssh.HostPattern is host_pattern.rs, Ssh.KnownHosts the lookup in a known_hosts file (known_hosts.rs), and
--   Ssh.HostKey `verify` (host_key.rs), which decides on the key that a host offers. The reading of one line,
--   the comparison of keys and the keyed hash of a name are third-party code: the records `Keys`, `Printing`
--   and `Mac`. How the file reads and whether a line can be appended are arguments of `verify`. The other
--   files of the crate are not modelled.
-- * crates/grenat_green is Green: Green.Scheduler is task.rs and scheduler.rs, the states of tasks and the run
--   queue; Green.Sync is sync.rs, a lock and a condition variable; Green.Channel is channel.rs. Each is a
--   function `step` from a system and an event to the next system, and `run` takes any list of events, so
--   any interleaving. A step of Green.Scheduler is one atomic access or one use of the queue, a step of the
--   others one critical section with its wake-ups. In Green.Sync and Green.Channel a wake-up marks the task
--   that waits, and a task goes on from `park` with or without the mark, since `park` may return early.
--   In Green.Scheduler a task that wakes or spawns another while it runs counts as a thread of its own for
--   that call. Tickets and the number of senders do not wrap. Of the scheduler the count of live tasks, the
--   condition variable of idle workers, stacks and panics are not modelled; nor are timer.rs and blocking.rs.
-- The other crates (parser, types, code generation, runtime, services, tools) are not modelled.
-- Prelude holds what they share. Each part's Tests module holds runs and instances.
pub mod Prelude
pub mod Limits
pub mod Watch
pub mod Package
pub mod Serve
pub mod Lexer
pub mod Ssh
pub mod Green
