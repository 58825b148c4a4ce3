-- ===== src/Lib.antt =====
-- hellbox is a daemon that empties a shelf of discs: it watches optical drives, rips what is put
-- into them, encodes the rips, and files the results. This library models the decisions of the
-- daemon, written in Go under internal/, as functions on explicit states.
--
-- The parts, and how they meet:
--
-- Drive (internal/drive). Sense, Region and Profile decode what a drive answers to SCSI commands;
-- the bytes are the input, since the ioctls that fetch them are Linux's. Monitor is the polling loop
-- of monitor.go: `tick` is one round, `polled` the events of a history of readings.
--
-- Catalog (internal/store/store.go, with the tables of schema.sql). The discs, titles, streams and
-- rip jobs: one function for each statement or transaction (`save_disc` for SaveDisc, `forget_disc`
-- for ForgetDisc, `attempts_for_disc` for AttemptsForDisc, and so on). A table is a list of rows in
-- the order of their ids, NULL is `none`, the time is an argument. Tables has the rows and what an
-- UPDATE and an INSERT with ON CONFLICT do; Rows, Attempts and Marks have the
-- proofs.
--
-- Worker (internal/daemon/worker.go, state.go, verify.go and internal/proto/drive.go). A worker owns
-- a drive. Status is what it shows; World collects the answers of what is outside the model: the
-- drive, MakeMKV and the native DVD reader, dvdbackup, the file system, the clock, the moments at
-- which a context has been cancelled, and the statements that SQLite refuses. Scan is scanWithRetry,
-- Source is ripSource, decryptNeeded, makeRipDir and the checks of files, Rip is rip, and Handle is
-- handleDisc and handleEvent, each cut at the places where the code can return. The worker calls the
-- Catalog and asks Drive's Region whether a disc can be read; it hands a ripped disc on to the
-- transcode queue by an effect.
--
-- Transcodes (internal/store/transcode.go). The queue of titles to encode, in the same style as the
-- Catalog. The same database holds both; the queue reads only the label of a disc, so each module has
-- the rows that it reads. Rows, Claims, Tries and Budget have the proofs; Tries counts the claims of a run of
-- statements against what it gives back.
--
-- Library (internal/library/library.go). What a disc is taken for, by the running times of its
-- titles, and the title a film is filed by. Shape has the proofs.
--
-- Library also has Naming: the name of a disc, the place of each of its titles in the library and the
-- link that puts it there. Plan has the proofs. A place is the list of elements that filepath.Join
-- puts together, which is an argument; the files are what each path holds.
--
-- Runner (internal/daemon/transcode.go and library.go). The runner of the transcode queue over both
-- databases' tables and the files: Encode is transcodeOne and the loops of runTranscodes, a round for
-- each Moment, which says what the encoder, the disk, SQLite and the context answer in it; File is
-- fileTitle and fileUnfiled; Requeue is queueTranscodes and requeueDisc. Drain, Ends, Filing and
-- Catching have the proofs. It calls Transcodes for the queue, Catalog for the discs and Library for
-- the places.
--
-- MakeMkv (internal/makemkv). Lines is robot.go: the lines of robot output, their fields, durations
-- and integers. Messages is what makemkv.go tells from messages: the version, the state of the
-- registration key, the summary of a failure; its regular expressions are written out, case folding
-- is an argument. Stall is stall.go, and Rip is RipTitle over the sequence of lines and ticks of the
-- watchdog. Fields, Durations, Keys, Watch and Silence have the proofs.
--
-- Identity (internal/disc/disc.go). The fingerprint, with the hash as an argument, the slug and the
-- names of directories and files. Names and Prints have the proofs.
--
-- Failure (internal/disc/failure.go). The group that a failure's text puts it in, after the harmless
-- lines are taken out. Benign has the proofs.
--
-- Verify (internal/verify/verify.go). What a ripped file and the files of a disc are checked against;
-- what ffprobe says of a file, and what opening and reading it give, is the input. Lengths has the proofs.
--
-- Config (internal/config/config.go). Validate with its checks in order, the defaults and DriveFor.
-- Bounds says what a valid configuration gives the Worker's scan.
--
-- BluRay (internal/bluray/bluray.go). Playlists has the choice of the playlists that are titles and the
-- disc made of them; Parse and Reports read the output of bd_info and bd_list_titles, given as lines,
-- with the two regular expressions as lists of pieces. Content has the proofs. It gives discs in
-- Catalog's terms, with Identity's fingerprint. A number in a report is below 2 ^ 63.
--
-- Evidence (internal/identify/identify.go). How the proposals of several nets become one name: Run and
-- Resolve. A net is its name and its answer, where an error is none; a confidence is a number of
-- hundredths, with exact sums in place of floats. Surest has the proofs.
--
-- Dvd (internal/dvd/ifo.go). Vmg is the search for the Video Manager in a directory, a file or a raw
-- disc, Name the name that its Text Data Manager or its provider field holds. Search has the proofs.
-- The decoding of UTF-8 is an argument.
--
-- Select (internal/transcode/select.go). Which streams of a ripped title reach the encode. Audio and
-- Accounts have the proofs; strings.ToLower and strings.TrimSpace are arguments, since a case table
-- is no part of the program.
--
-- Hub (internal/api/hub.go). The event hub that mirrors the daemon's activity to clients: a ring for
-- replay, subscribers with bounded channels, and a heap of channels in which a send to a closed one
-- is an error. Every operation is a critical section; reachable hubs are those that sequences of
-- them give.
--
-- Base has the shared lists, sorting, texts, decimal numbers, integers of 64 bits, Boolean tests and bit
-- lemmas, and the record Unicode of the tables that the packages unicode and strings read.
--
-- Choices and bounds. Numbers are natural; the ids of the hub wrap at 64 bits where the code adds to
-- them, bytes are below 256 where a theorem needs it. Loops are structural: over lists, over the
-- attempts left of a scan, and over the 49 numbered names that makeRipDir tries after the first. A
-- message is a constructor of `Problem` that says which message it is; an error that wraps another
-- keeps it, so that errors.Is can be modelled. A fraction of progress is a number in place of a
-- float, and the estimate of the time left is an answer of the World, for the same reason. One
-- handling of a disc reads one time of the clock.
--
-- A range of floats is a quotient of numbers, and a Go string is the list of its code points, which
-- agrees with its bytes wherever the code looks for ASCII.
--
-- Not modelled: log lines and their words; the progress callbacks during a rip or an encode; the daemon's
-- Blu-ray pipeline, which the worker holds as a function and the model takes as one; the decrypted copy's own
-- bookkeeping and the scan of a disc by MakeMKV, which the World answers for; the HTTP and socket
-- servers, the client, the terminal interface, reading the configuration file, ffmpeg and ffprobe, which are input and
-- output around these parts.
pub mod Base
pub mod Drive
pub mod Catalog
pub mod Worker
pub mod Transcodes
pub mod Library
pub mod Runner
pub mod MakeMkv
pub mod Identity
pub mod Select
pub mod Hub
pub mod BluRay
pub mod Failure
pub mod Verify
pub mod Config
pub mod Dvd
pub mod Evidence
