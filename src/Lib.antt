-- ===== src/Lib.antt =====
-- A model of resolvit, a DNS server that answers from local records, filters names by blocklists,
-- caches and forwards.
--
-- A request enters at Handler (pkg/handler). It looks its name up in the local records (Records,
-- pkg/records), asks the filter (Filtering.Filter, pkg/filtering/filter.go), then the cache
-- (DnsCache, pkg/dnscache), and last the upstream servers (Forward, pkg/forward).
--
-- Go holds what the program uses of the language and its standard library: texts as lists of code
-- points with the functions of package strings, maps with text keys, net.ParseIP, filepath.Clean,
-- strconv.Itoa, pointers into a heap, and the ways in which a call ends. strings.ToLower is
-- modelled on ASCII letters, which is all that a name in a DNS message's presentation format
-- holds. Dns holds the fields of a message of github.com/miekg/dns that the program reads or
-- writes. The library's functions are a record of parameters, with what its documentation promises
-- beside it. Filtering.DomainSet is pkg/filtering/domainset.go and Filtering.Parser is parser.go
-- of that package, which turns the lines of a list into such a set. A list entry, or the id of a list,
-- outside ASCII is
-- lowered like a name, by its ASCII letters. Go.Scan is bufio.Scanner on a text of valid UTF-8,
-- with its limit of 65536 bytes. Filtering.Loader is loader.go and allowlist.go: downloads, cached
-- copies, the merge of the sources; and Filtering.Refresh the start of a filter and its refreshes,
-- from filter.go. Filtering.Sources is catalog.go and sources.go: the built-in lists and the sources
-- that a configuration selects; a Go map that is ranged over is the list of its entries in the order
-- of the range. Filtering.Manager is manager.go, which the program does not use: a second holder of a
-- set that is loaded again and again. Filtering.BlockedLog is blocked_logger.go, the lines of the log
-- of blocked queries. Errors of a load are values. The disk is passed from one load to the next; its
-- operations, net/http and sha256 are the fields of Host. The answers of upstream servers, the
-- clock, the client's address and the files are parameters too.
--
-- Handler.Spec is what the handler promises, stated on an abstract cache: a function from keys to
-- messages with the time at which they expire. Handler.View reads the detailed cache and its heap as
-- such a function, and Handler.Refinement compares the two. Server is pkg/server: Server.Wiring puts
-- its parts together, and a run is a sequence of requests, each with the records, the filter and the
-- clock of its moment, and of the clearing of the cache. Server.Interleaving is a request that is
-- under way while the records are reloaded. Handler.Tasks cuts a request into the steps of the
-- goroutine that serves it, each with one access to what goroutines share: the records, the two sets
-- of the filter, the cache, the message at a pointer, the log. Handler.Tasks.Safe, Replies, Bounds and
-- Refused are what one such step keeps, writes, leaves to do and does for a blocked name, and Alone
-- compares the steps with the call.
--
-- Config is the check of a configuration in pkg/config/config.go, with the fields that it reads, and
-- Config.Load its reading: the lists, the interval and the defaults. Go.HostPort is
-- net.SplitHostPort. The methods of viper, mapstructure.Decode, time.ParseDuration, os.Getenv,
-- net.LookupPort and os.Stat are parameters. Logger is pkg/logger: the level, and where the log goes;
-- Go.Path.Files is the test on the path of a file that it shares with the records.
--
-- Process.Start is the start in main.go, from the configuration to the server, and Process the loop
-- over signals, with the loading of the records and the clearing of the cache. Process.Life puts
-- requests, signals and the ticks of the filter into one sequence: each request gets the records and
-- the filter of its moment. Process.Goroutines lets them overlap: a machine holds the records, the
-- filter, the cache and the goroutines, one for each request that has arrived, and says where the main
-- loop and the refresh loop are. A step is the arrival of a request, a step of one goroutine, the load
-- of the records, the clearing of the cache, the load of the lists, or one of the two stores of
-- LoadOnce. Steps follow one another in any order, and Reach is what they lead to; in its child Started
-- the first machine is the process that Process.Start gives.
--
-- Testutil is the stub of an upstream server in internal/testutil, as far as its answers go.
--
-- Loops run by recursion on their list. The loop over local aliases in handleCNAME takes fuel and
-- ends with hang when that runs out. The cut of long responses takes a round for each answer,
-- which is enough since a round removes one. The refresh loops of the filter and of the manager run
-- once for each tick of a finite list; the end of their context is the end of that list.
--
-- Logging for the operator is left out, except where an argument of the call can panic, and except
-- what the parser of a list logs. The mutexes make each operation of the records and of the cache
-- one step. In Handler a request is one call, during which the records and the filter do not change;
-- in Handler.Tasks they may change from one step to the next. There the copy of a message and its cut
-- are single steps, although the code takes no lock for them, and a file of records is read whole
-- under the lock of the records. The times at which a goroutine will read the cache and write it are
-- fixed when it begins, to any values. A signal that ends the process ends the sequence of steps.
-- Not modelled: the listeners, which belong to the DNS library, the version string that the build
-- sets (pkg/version), and the sockets and AAAA records of the test stub.
pub mod Prelude
pub mod Go
pub mod Dns
pub mod Records
pub mod DnsCache
pub mod Forward
pub mod Filtering
pub mod Config
pub mod Logger
pub mod Process
pub mod Server
pub mod Testutil
pub mod Handler
mod Tests
