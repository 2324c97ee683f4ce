-- ===== src/Lib.antt =====
-- pxe-beacon answers the network boot requests of machines beside a DHCP server, serves them a
-- boot loader and an installer, and offers an HTTP interface in which an operator configures
-- machines and queues installations. This library models the parts of the program that decide:
-- the stores that it keeps in memory, the fleet configuration with its transactions, and the
-- functions that the servers call.
--
-- Parts:
-- - Base: texts as lists of bytes, the trimming of their white space as Unicode has it, maps as
--   association lists with distinct keys, lists, sorting and results. The order of an iteration over a Go map, which Go leaves open, is the order of
--   the list; no theorem depends on it.
-- - Mac: CanonicalMAC of internal/fleet/fleet.go, which every other part uses to name a
--   machine. Mac.Canonical has its laws.
-- - Pending: internal/pending/pending.go, the queued installations. Pending.History relates it
--   to the calls that were made, Pending.Retention to the pruning after a reload.
-- - InstallLog: internal/installlog/installlog.go, the end of each machine's installation log.
-- - Sightings: internal/sightings/sightings.go and oui.go, the feed of unknown machines, with
--   its bound and its eviction.
-- - FilePaths: what fleet.yaml needs of Go's path/filepath on a Unix system.
-- - Fleet: internal/fleet/fleet.go, writer.go and txn.go. Fleet.Loading reads fleet.yaml,
--   Fleet.Validate checks a profile, Fleet.Saving writes the file, Fleet.Txn has the entity
--   tags and the three transactions; Fleet.Loaded, Fleet.Lookups, Fleet.PhoneHome, Fleet.Atomic,
--   Fleet.Precondition and Fleet.Deletion have the theorems.
-- - Tracker: internal/fleet/status.go, the progress of each machine. Tracker.Progress has the
--   law of its state.
-- - ProxyDhcp: internal/proxydhcp/proxydhcp.go and arch.go. ProxyDhcp.Arches is the table of
--   architectures and ProxyDhcp.Offer is BuildOffer, cut at its returns into functions that
--   call each other in order; ProxyDhcp.Gate says when it answers, ProxyDhcp.Answer what,
--   ProxyDhcp.Sighted what it reports. Sockets are not modelled.
-- - Httpd: the requests of internal/httpd that change what is pending: the installation events
--   of httpd.go and the intents of api.go. Httpd.Events has the law that ties an event to the
--   tracker, the pending store and the guards of ProxyDhcp; Httpd.Intents those of the intents.
--   A response is its status and its error code.
-- - Boot: internal/boot/dispatch.go. Boot.Script has the lines of a script and a reading of
--   iPXE's control flow: the first jump that is taken, for given settings and failures, and
--   what stands behind a label. The reading stops at a printed text that iPXE would not read as
--   plain words; Boot.Readable says which texts of the configuration have to be plain, since the
--   source prints the names of the machines as they are. Boot.Labels is labelOf, Boot.Arms the arms
--   of the boot targets, Boot.Block writeMachineBlock and Boot.Dispatch RenderDispatch.
--   Boot.Resolve, Boot.Table and Boot.Reach have the theorems on its labels and on where it leads
--   a machine.
-- - Httpd.Machines: the requests of internal/httpd/api.go that create, update and delete a
--   machine, on the server and the file fleet.yaml. Httpd.Mutations says what a failed request
--   leaves, Httpd.Changes what a successful one has done. Httpd.Paging has the paged lists, the
--   views and the readiness probe, Httpd.Pages the laws of the pages.
-- - Httpd.Reading: the requests of internal/httpd that read a machine, its intent, its log and the
--   status report, and what an installation event takes from its body. Httpd.ReadBack, Queued,
--   Reports and Bodies tie them to the requests that write.
-- - CallbackToken: internal/callbacktoken/callbacktoken.go and the guard requireCallbackToken
--   of internal/httpd/httpd.go with the two callbacks behind it. CallbackToken.Tokens says
--   which tokens are accepted, CallbackToken.Guard what a callback needs to change anything.
--   HMAC-SHA256 is a parameter.
-- - Listener: internal/proxydhcp/listener.go, what handling a packet leaves and the offers that
--   wait for a fetch. Listener.Hints says when the hint is given.
-- - Cache: internal/cache/cache.go, the targets and the paths of their files. Cache.Inside is
--   about these paths, Cache.Manifest has the manifest of a target, and Cache.Fetched says when a
--   target counts as populated.
-- - Tftp: internal/tftp/tftp.go, what a read request is answered with. Tftp.Prefixes is about
--   the directories before a name.
-- - UserData: handleUserData of internal/httpd/httpd.go, the cloud-init document that a machine
--   is served. UserData.Callback ties the callback in it to the guard of CallbackToken.
--   Mac.Hyphens has the form of an address in the path.
-- - Autoexec: internal/boot/targets.go and handleAutoexec of internal/httpd/httpd.go, the script of
--   a single machine. Autoexec.Templates says which boot targets have a template, Autoexec.Served
--   what each machine is answered.
-- - Installer: the preseed, kickstart and rescue documents and the cloud-init metadata of
--   internal/httpd/httpd.go, with the netmask that they take from the profile. Installer.Networks
--   has the masks and prefixes, Installer.Prefixes their bounds, Installer.Bridge what ends a
--   preseed, Installer.Noted what a request for a document leaves, the user-data included.
-- - Served: the files of internal/httpd/httpd.go, which are the boot loaders, the script for all
--   machines and the files of the cached targets, and New of internal/cache/cache.go.
--   Served.Offered compares the routes, and those of Tftp, with the files that ProxyDhcp offers;
--   Served.Contained is about the files that a path can reach.
-- - Assets: internal/assets/assets.go, the embedded files and the templates that an operator puts
--   in their place. Assets.Overrides says where these lie.
-- - Admin: the forms of internal/httpd/admin.go that save and reset templates and the cloud-init
--   documents of machines, and the guards before them. Admin.Views has what the editors show,
--   Admin.Files the way a form replaces a file. Admin.Replay compares any sequence of forms with
--   what they should leave, Admin.Guarded is about the guards, Admin.Served about the documents.
-- - Reload: watchSIGHUP of cmd/pxe-beacon/main.go and handleAdminReload of
--   internal/httpd/admin.go, which reload the fleet and prune the stores beside it.
--   Reload.Pruned is about what is left of a machine, Reload.Sound about the invariants of the
--   stores.
--
-- State and time: a store is a record, each method a function from the store to the new store
-- and its results. A method that reads the clock takes the time as an argument. The source
-- guards each store by a mutex, so each method is one step, and a run is a list of calls. Times
-- and durations are nanoseconds and do not overflow; a time is a natural number and a duration
-- an integer.
--
-- Parameters: decoding and encoding fleet.yaml (yaml.v3, with the comment that Save writes
-- first), SHA-256 and HMAC-SHA256, the file system that a profile is checked against, the step
-- at which writing the file fails, the opening and reading of files, filepath.Abs, net.ParseIP,
-- net.SplitHostPort, the parsing and rendering of templates, the embedded files, and whether a
-- transfer completes. The theorems on callbacks suppose that the code of HMAC-SHA256 is not
-- empty. A request of the API is what its handler reads of it; decoding its body is a parameter
-- or done before. The file is replaced by a rename, which happens or does not. The text of
-- error messages and the log lines are left out; each error is a constructor. All recursion is
-- structural; only the printing of a decimal numeral counts rounds, one more than the number,
-- and each takes a digit.
--
-- Not modelled: sockets and the transfer by HTTP and TFTP; the HTML pages, which only print the
-- stores; the liveness probe and the debug probes, which only answer and log; the downloads of
-- internal/cache/fetch.go, which are calls of net/http, of a reader of ISO images and of the file
-- system; logging, the detection of networks, and the commands with their flags and start-up.
pub mod Base
pub mod Mac
pub mod Pending
pub mod InstallLog
pub mod Sightings
pub mod FilePaths
pub mod Fleet
pub mod Tracker
pub mod ProxyDhcp
pub mod Httpd
pub mod Boot
pub mod CallbackToken
pub mod Installer
pub mod Listener
pub mod Cache
pub mod Tftp
pub mod UserData
pub mod Served
pub mod Reload
pub mod Assets
pub mod Admin
pub mod Autoexec
