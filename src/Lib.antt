-- ===== src/Lib.antt =====
-- Verification library of netjugo, a Go library that aggregates lists of IP prefixes: it sorts them,
-- removes duplicates, joins neighbours to larger CIDR blocks, takes exclusions out, and rounds
-- prefixes up to a minimum length. The lists of the two families are handled apart, by the same code.
--
-- How the files correspond to the code:
--   IpPrefix.antt         `IPPrefix` of aggregator.go, with what a CIDR block is
--   Errors.antt           errors.go, and the pair of a value and an error
--   Validation.antt       validation.go: prefixes to ranges of addresses and back. Its children are
--                         for proofs: Ipv4, Ipv6 (ranges to prefixes), Range4, Range6, Boundary6,
--                         Ends6 (prefixes to ranges), Blocks (both families)
--   Algorithms.antt       algorithms.go: sorting, removal of duplicates, aggregation, minimum
--                         lengths. Its children are for proofs: Ranges (the tests on two ranges),
--                         Nested, Join (two neighbours), Pass (one pass), Aggregate, Dedup,
--                         Limit (the limit of the passes), Disjoint (sorting blocks again), RoundUp,
--                         and Siblings, Maximal, Held (the blocks that lie in a prefix of the list)
--   Maximal.antt          what a list of blocks is of which each block that it covers lies in one. Its
--                         children are for proofs: Fewest (no list is shorter), Unique
--   Exclusion.antt        exclusion.go: the prefixes that an exclusion meets, and what is left of
--                         them. Its children are for proofs: Overlapping, Scan, Find (the search),
--                         Zeros, Largest, Optimal (the cover of a range), Covers, Cut, Process
--                         (what is left), Replace, Pairwise, Excluded (one exclusion), Loop (all)
--   Text.antt             texts as lists of code points, with what is called of package strings;
--                         its children Trim and Split are for proofs
--   IpText.antt           the parsers and the printer of net/netip, a parameter with its documented
--                         laws; IpText/Dotted.antt shows for IPv4 that the laws can hold
--   Parse.antt            `parseIPPrefix` and `isValidIPPrefix` of validation.go. Its children are for
--                         proofs: Laws, Blocks (the ranges that are read)
--   Aggregator.antt       `PrefixAggregator` of aggregator.go: its state, setters, additions and
--                         warnings. Its children are for proofs: Lists, Texts, Decided (lists of
--                         texts), Valid (the invariant)
--   Reader.antt           `AddFromReader` and `AddFromFile`. Its children are for proofs: Lines, Bare,
--                         Written (lines that are printed prefixes)
--   Optimize.antt         `Aggregate` of algorithms.go, with the methods for each family. Its children
--                         are for proofs: Family (one family's list), Steps, Whole, Cells (what
--                         rounding covers), Best (the shortest list)
--   Output.antt           the methods that give out texts, statistics and memory estimates, and
--                         `WriteToWriter`; its children Laws and Memory are for proofs
--   Cli.antt              cmd/ipaggregator/main.go, from the parsed flags to the lines that are written.
--                         Report holds its statistics and `formatBytes`; its other children are for
--                         proofs: Laws, Pieces (lists in flags), Success, Prepared (what the flags and
--                         files set up), Format
--   Pool.antt             the pool of prefixes, with `AddPrefix` and the whole of `Reset` by
--                         pointers. Its children are for proofs: Laws, Stands and Lived (no pointer
--                         is held twice), Shared (one is)
--   Lifecycle.antt        the calls of an aggregator's methods but `Reset` as a step relation; its children
--                         Again (a second `Aggregate`) and Written are for proofs
--   Netip.antt            the values and the methods of net/netip that the code calls
--   Uint256.antt          github.com/holiman/uint256, a parameter with its documented laws;
--                         Uint256/Model.antt shows that the laws can hold
--   Sorting.antt          `sort.Slice`, a parameter with its contract; Sorting/Insertion.antt shows
--                         that the contract can hold
--   Prelude.antt          shared helpers: numbers, powers of two, bit masks, bytes, lists
--   Examples.antt         the theorems at concrete inputs, also in Runs.antt, BestRuns.antt,
--                         LimitRuns.antt, CliRuns.antt and PoolRuns.antt
--
-- How the model stands to the code. An `Int` is the number that it holds, below 2^256, and every
-- operation on it is one of the parameter's. A `uint32` or a `uint64` has its wrap-around written
-- out. An error is its sentinel; texts are left out. A slice of pointers is the list of what they
-- point to. That is exact in a program that does not call `Reset`: nothing is given back to the
-- pool, so that each pointer that it gives is new, and what a listed one points to is not written.
-- After `Reset` it need not be, since a pointer can be in two lists and is then given back twice;
-- Pool.antt models `Reset` by pointers, and Lifecycle.antt leaves it out. Methods on the two families that differ only in the list they work on are one function of
-- that list. A method of the state takes it and returns the new one with the error; `then_try` is
-- the early return. A call of `Aggregate` takes a time, which is an argument; `os`, `bufio` and
-- `io` are what they give or take.
--
-- Bounds. `aggregate_loop` counts the iterations that are left of the 5000 of the code, which is
-- its own limit. `shrink64` and `shrink` have one round for each bit of the number that they halve.
-- `optimal_loop` has one round for each address of its range, since each round moves on by at
-- least one. `zeros_loop`, `search_length` and `last_below` count the rounds of the code's loops.
-- `float_from` has a round for each binary digit that a number of 63 of them has over 53, and one
-- more; `decimal` has more rounds than its number has digits.
--
-- Not modelled: locks, and the pointers in the setters and in the steps of `Aggregate`, which works on
-- the prefixes themselves; of the command line, the parsing of its flags and its messages. The numbers
-- of the runtime that `GetMemoryStats` copies are an argument, and the reduction ratio is kept as its
-- two numbers. The programs under examples/ show how the library is called.
pub mod Aggregator
pub mod Algorithms
pub mod Errors
pub mod Exclusion
pub mod IpPrefix
pub mod Cli
pub mod IpText
pub mod Lifecycle
pub mod Output
mod BestRuns
mod LimitRuns
mod Runs
mod CliRuns
mod PoolRuns
pub mod Maximal
pub mod Netip
pub mod Optimize
pub mod Parse
pub mod Pool
pub mod Prelude
mod Examples
pub mod Reader
pub mod Sorting
pub mod Text
pub mod Uint256
pub mod Validation
