-- ===== src/Lib.antt =====
-- RecoverX, a file recovery tool for disk images: the parsers and algorithms of src/recoverx/core.
-- Paths below are from that directory.
--
-- The library models eight parts of the program, and what they share.
--
-- Utils. Utils/RawReader is utils/raw_reader.py: an image is the list of its bytes, the position
-- of the handle is an argument of the read, and a read past the end is short. `seek` and `read`
-- refuse numbers from 2 ^ 63 on, as Python does; a file system may refuse smaller positions behind
-- the end of a file. Utils/Unpack is the use of struct.unpack_from on unsigned little-endian
-- fields, with none for the error on short data. Utils/Text and Utils/Dict are the texts and dicts
-- of Python as far as the parsers use them.
--
-- Ntfs/Runlist is filesystems/ntfs/runlists. Mapping is mapping.py (resolve_runlist, vcn_to_lcn,
-- runs_to_byte_offsets), Executor is executor.py (the reads of a RunlistExecutor: plain,
-- sparse-aware and chunked, and the estimate), Validation is validation.py with what sparse.py
-- counts. The other modules are proofs: Translation is about VCNs, Reading about the plain read
-- against the bytes of the file's clusters, Estimate about the sparse-aware read, Chunked about
-- the generator, WellFormed and Resolved about the validator.
--
-- Ntfs/Attributes is filesystems/ntfs/attributes.py: parse_runlist, which reads the runs that
-- Ntfs/Runlist works on, and in Header the attributes of a record. Shift and Fields are about the
-- positions and numbers of runs, RoundTrip about the bytes that NTFS lays runs out in, Total about
-- the end of the loop, Header/Order about the attributes that are found.
--
-- Ntfs/BootSector is boot_sector.py with the derived sizes of structures.py, and Ntfs/Mft is
-- mft.py: the header of a record, its fixups, and the attributes that a record uses.
-- BootSector/RecordSize is about the size of a record, Mft/Fixups about the bytes that the fixups
-- change. Ntfs/Recovery is recovery.py of the same directory, on the executor of Ntfs/Runlist: the
-- walk over the master file table and the kinds of files in it, what is recoverable, and in Files
-- what is recovered. Slots is about the walk, Classified about what it means that a file is called
-- recoverable.
--
-- Ntfs/Usn is records.py and reasons.py of filesystems/ntfs/usn, the records of the change
-- journal, and Ntfs/Usn/Events is mapping.py, the events that they stand for. Chain is about which
-- records are found, Events/Reported about the events.
--
-- Forensics is models.py and events.py of the directory forensics, and Forensics/Timeline the
-- order of the events in timeline.py, with Sorted and Built about it. Correlation/Graph is
-- graph.py of the directory correlation, with Search and Found about the search for a path.
--
-- Fat32 is filesystems/fat32. BootSector is boot_sector.py with the derived sizes of
-- structures.py, FatTable is fat_table.py: the FAT entry of a cluster, the walk along a chain, and
-- the data of the clusters. Geometry is about where the data clusters lie, Walk, Pigeonhole and
-- Chain are about what the walk returns and about its bound on the rounds. DirEntry is the time
-- stamps and the attributes of directory.py, Directory its entries and long names, Directory/Tree
-- the walk of the tree, and Directory/Deleted is recovery.py, with Recovered about it.
--
-- Carving is the directory carving: the signatures, the five carvers and the streaming scanner.
-- The carvers have the same loop, carve_from; what each does behind a header is a function of its
-- own, jpeg_end and so on. Find and Ends are about bytes.find and the footers, Greedy and Files
-- about the loop. Streaming is streaming.py over any carvers, with Windows, Offsets and Dropped
-- about it. Scanner is the partition into regions of scanner/threaded_scanner.py.
--
-- Indexing/Cache is indexing/cache.py, with an ordered dict as the list of its items.
--
-- Query is query/ast.py, query/operators.py, query/parser.py and query/filters.py. Query/Parser is
-- the parser on the tokens of a query, RoundTrip and Printed are about what it reads back.
-- Query/Filters turns a query into a WHERE clause and the values of its placeholders; Safety and
-- Dropped are about what the clause holds and what it lacks.
--
-- Distributed is distributed/models.py, distributed/queue.py and distributed/scheduler.py. Task
-- objects are shared between the queue, the scheduler and its threads, so they stand in a store
-- under references. Every method of the queue runs under one lock and is one function on the
-- state. The method `schedule` of the scheduler holds no lock between its parts, so it is two
-- functions, and Scheduler/Steps has the steps of all threads as a relation, in any order.
--
-- Numbers are natural numbers where the code has no negative ones, and integers of Prelude/Int for
-- LCNs, VCN ends and offsets of runs. Shifts and masks of the parsers are written with powers of
-- two.
--
-- Loops. A loop over a list is a recursion on the list. The walk along a FAT chain is a recursion
-- on the rounds of the `for` loop that the code has. `_read_chunked` has a `while` without a
-- bound: it is a recursion on fuel that ends in `running` when the fuel is used up; the fuel is an
-- argument, since no bound serves for all runs. The loops of the carvers, of the streaming scanner
-- and of parse_runlist are on fuel too, with `none` when it is used up. Each round of theirs moves
-- on by a byte at least, so they are given one round more than the input has bytes. So is the loop
-- over the attributes of a record. The search for a path is given two rounds for each edge and one
-- more: a round takes a node off the queue, and an edge puts its ends there once each. The query
-- parser is given as much fuel for parentheses in parentheses as there are tokens, and one more.
-- The loop over the records of the change journal has the bound of the code, the walk of the FAT32
-- tree its depth.
--
-- What is not code of the repository is a parameter: Python's decoding of UTF-16 (decode_utf16),
-- its lower case, its numbers and its regular expressions in the query parser (lower, parse_int,
-- is_float, match_string), its time of a number of ticks (from_ticks), its clock (clock), and the
-- SHA-256 of utils/hashing.py, which calls hashlib (sha256). Times are numbers, and texts for
-- display are told apart by what they say.
--
-- The heap of the queue is kept as a list in the order of its entries: `heapq` gives entries out
-- in that order, and the counters make it a strict one. Memory is taken to be enough for what is
-- read. Logging, sleeping, threads as such and floating point numbers are not modelled. Nor are
-- the commands, the plugins, the SQLite store and the reports: they are input and output. The log
-- file of NTFS and the scores of the correlation are not modelled.
pub mod Prelude
pub mod Utils
pub mod Fat32
pub mod Forensics
pub mod Indexing
pub mod Ntfs
pub mod Query
pub mod Scanner
pub mod Carving
pub mod Correlation
pub mod Distributed
pub mod Tests
