-- ===== src/Lib.antt =====
-- The Go hub of visual-tmux-client: the parts that decide who may open a terminal, which sessions
-- there are, and how the bytes of a terminal travel between a process and a browser.
--
-- A browser asks the session service for a listing, gets a one-time ticket for a session, and opens
-- a socket with it. The handler redeems the ticket, starts a process for the session, makes an
-- attachment of process and socket, and registers it with the manager, which can end it: by host,
-- when the host is closed, or with all others, at shutdown. An attachment runs three goroutines and
-- has two buffers: the staging buffer, until the socket is ready, and the output queue.
--
-- Which hosts there are, the registry keeps in a state database that one hub owns at a time, with
-- credentials that a vault encrypts. A revision counts the changes of a host, a connection revision
-- those that concern its connection; neither is used twice for a host.
--
-- Paths are from the root of the repository.
--
-- * Terminal (hub/internal/terminal). Staging is staging.go (`write`, `drain`), Queue is queue.go
--   (`push`, `should_read`, `pop`, ...), Options is options.go, and Effect has the calls of the
--   interfaces of ports.go as data. Attachment is attachment.go, one function per method, each on the
--   record of the attachment with a log of its effects, but for the methods that end it, which
--   Attachment/Calls has as lists of calls. Attachment/System cuts the goroutines (`outputPump`,
--   `writePump`, `inputPump`, `Start`) into steps, so that a schedule is a list of events; a method
--   that ends the attachment goes on by one call at a time, beside all others. Manager is manager.go, over a world that maps addresses to attachments.
-- * Auth (hub/internal/auth). Token is auth.go and Auth/Tickets is tickets.go.
-- * Session (hub/internal/session). Model is model.go and errors.go, Validation is validation.go,
--   Pane is pane.go, and Service is service.go over the interface of backend.go.
-- * Tmux (hub/internal/tmux). Env is env.go, Commands is commands.go, Sessions is parse.go, Panes is the
--   reader of panes.go, Process is process.go, Client is client.go with the client's operations of
--   panes.go, and Starting is `EnsureGlobalOptions` and `NewProcess`. The client is a
--   backend of the session service (`client_backend`).
-- * Host (hub/internal/host). Encoder is encoder.go, Identity is identity.go. Store is store.go: the
--   state database as a record of tables (Hosts, Removal, Settings and Cleanups have the calls, Files,
--   Fresh, Migration and Opening what OpenStore does). A statement of SQL is a function on the tables; what
--   the driver reports for the k-th statement of a call is an argument, and a transaction that fails
--   leaves the tables alone. Vault is credentials.go, Trust is trust.go without the probe, and Registry is
--   registry.go (Saving is Save on an open store, Service is `initialize`, Calls has the other calls).
--   Connection is connection.go, over tables of pools, clients and managed connections in place of pointers
--   (Leasing has leases and ssh_auth.go, Dialing the steps of a dial). Trim is strings.TrimSpace.
--   Outcome has the rules by which the proofs follow error paths.
-- * Prelude has what these share: lists and numbers, the bytes of a string, integers with a sign, Go's
--   maps as association lists, and UTF-8 as Go decodes it.
--
-- Strings and byte slices are lists of numbers, one for each byte. An `int` that can be negative is an
-- integer without a bound, except that epochs are counted modulo 2^64, as their type says; a duration or
-- a time is a number of nanoseconds. A call that holds a mutex is one step. What the process, the
-- socket, the clock, the random source, SHA-256, JSON and the tmux executable answer are arguments.
--
-- Three loops are on fuel: `writeInput` and `ParsePanes` on the length of their input, which is enough
-- since each round takes at least one byte off, and `Itoa` on its number. Every other loop is by
-- structural recursion.
--
-- Not modelled: SSH and what goes over it (sessions and files of remote hosts), SQLite itself, the file service, the
-- configuration, the HTTP and socket handlers, and the wiring of the program; timeouts of single
-- writes, which appear as failed writes; the wording of errors. The browser's own code is no part of it.
pub mod Prelude
pub mod Terminal
pub mod Auth
pub mod Session
pub mod Tmux
pub mod Host
