-- ===== src/Lib.antt =====
-- my-oj, an online judge: its contest scoring, scoreboard, judging, queue and submission rules.
--
-- A submission comes in through internal/api/handler/submission.go, which stores it, decides whether
-- the contest withholds it, and puts a task on a queue. A judger node (internal/judger) takes the task,
-- compiles the source, runs it on each test case in a sandbox, compares the output and publishes one
-- result. The ranking service (internal/core/ranking) takes the results of contest submissions, applies
-- the scoring strategy of the contest (internal/core/contest) to the contestant's entry for the problem
-- and publishes a new board. After the freeze of an ICPC contest the entries hide results, which are
-- revealed one at a time at the end. New boards go out to browsers through a hub of WebSocket
-- connections, and a finished contest is exported as an event feed for the ICPC resolver. The queue is a
-- Redis stream, and a node keeps the test cases of the latest problems in a cache on its disk.
--
-- Files and the code that they model:
--   Prelude and its children: tests on natural numbers, lists, signed 64-bit numbers, maps as
--     association lists, and stable sorting, which stands for Go's sort.Slice as a parameter with the
--     laws that its documentation promises (Prelude/Order).
--   Models: internal/models/{types,contest,submission,judge_task,problem}.go. Mq/Messages:
--     internal/mq/mq.go.
--   Scoring/Entry, Scoring/Oi: internal/core/contest/strategy.go. Scoring/Icpc: strategy_icpc.go.
--     Scoring/Rank: the rankings of both files.
--   Ranking/Board, Ranking/Service: internal/core/ranking/{service,types}.go. The keys of a contest in
--     Redis are the state; which command fails is an input of each operation. Ranking/Hub: websocket.go.
--     Its events come in any order; a client is a number, and the messages that its writer has taken are
--     kept. The model allows more than the program does: writers may start before the snapshot.
--   Judger/Verdict: internal/judger/{verdict,orchestrator}.go and sandbox/types.go. Judger/Tokens,
--     Judger/Runners: runner_standard.go and runner_special.go. Judger/Compiler: compiler.go and
--     config.go. Judger/Step, Judger/Scheduler: scheduler.go; a stage is the list of its events with how
--     it ended, by a value, an error or a panic.
--   Judger/Cache: testcase_cache.go. Cache has what one caller does under the lock, Cache/Workers the
--     workers that interleave there, Cache/Disk the directories of one problem.
--   Judger/Interactive: interactive/orchestrator.go. Judger/Nsjail: sandbox/nsjail/{args,execute}.go.
--   Submissions/Visibility, Submissions/Batch, Submissions/Intake: internal/api/handler/submission.go.
--   Resolver: internal/api/handler/resolver.go, the event feed of a contest. Mq/Stream:
--     internal/mq/redis/stream.go, the consumer of a queue; Redis, the context and the handler are functions
--     on a state of the world.
--   Tests: the theorems listed below at concrete data, and small runs.
--
-- Representation and bounds. Keys and times are natural numbers; a time counts nanoseconds from the year
-- 1, and 0 is Go's zero time. Scores are integers and are added as 64-bit numbers that wrap around;
-- counts of attempts, minutes and milliseconds are natural numbers that stay far below 2^63. Minutes of
-- penalty are whole minutes, which is what the conversion from floating point gives for contests of up to
-- 182 days. Multipliers of time limits and numbers in the settings of a contest are in thousandths. Text
-- that the code searches or cuts is a list of bytes; error texts are ASCII. `reveal_all` runs on a fuel,
-- the number of hidden results of the entry, of which each step removes one; so does the eviction of the
-- cache, on the number of entries.
-- The loops of the queue's consumer run on a fuel of rounds, since they end when Redis or the context
-- says so; a drain of fewer than 64 * n pending entries needs n rounds when no command fails and the
-- handler takes each of them. Every other function is structurally recursive.
--
-- What comes from outside is an argument of the definitions: the database, Redis, the object store, the
-- queue, the sandbox, checkers, the clock, the order in which Go walks a map, and the texts that fmt
-- makes of numbers. Publishing does not panic, nor does a worker of the cache while it refreshes a
-- problem: after such a panic its slot would stay taken. A run of the scanner reads the whole output, so
-- that the words do not depend on how the reader cuts it. Redis fails where it likes; the theorem on the
-- end of a drain names what it takes of Redis and of the run (Mq/Stream/Ends).
--
-- Not modelled: starting processes in the nsjail sandbox and the files of its cgroups, accounts, the
-- other handlers, SQL, object storage, HTTP, logging, the programs under cmd, and the frontend.
pub mod Judger
pub mod Models
pub mod Mq
pub mod Prelude
pub mod Ranking
pub mod Resolver
pub mod Scoring
pub mod Submissions
pub mod Tests
