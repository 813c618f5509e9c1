-- ===== src/Lib.antt =====
-- Procurator runs NixOS systems in virtual machines and checks repositories with Nix. This library
-- models the two services that carry its logic, the worker and the CI service, the way of autonix from
-- a repository's files to the configuration of a flake, the reading of Nix logs and the binary cache,
-- and proves what makes them correct. Paths are from the
-- repository's root.
--
-- The worker (worker/). A request arrives over Cap'n Proto at `Server` (worker/src/server.rs), which
-- sends a command over a channel to the task that owns the `VmManager` (worker/src/vm_manager.rs).
-- The manager keeps one table of VMs and handles one command at a time. For each VM it drives a
-- backend (worker/src/vmm/interface.rs): prepare, spawn, create, boot, attach the network, look
-- whether the process lives; or shut down, delete, kill, clean up. The backend is the one of
-- cloud-hypervisor (worker/src/vmm/cloud_hypervisor.rs) or a scripted one for tests
-- (worker/src/vmm/mock.rs).
--   Worker/Dto.antt: worker/src/dto.rs, the errors, specs, commands and responses.
--   Worker/Vmm.antt: the three traits of interface.rs, as a record of a backend's state types and
--     operations. The state of the backend and of the host is one `World` that is passed along.
--   Worker/Vmm/Mock.antt: mock.rs, whose world counts the calls.
--   Worker/Manager.antt: vm_manager.rs, with the function names of the source (`handle_create` is
--     `start`, then `record_vm`), and the receive loop of `main` in worker/src/lib.rs as `run`.
--     Manager/Fleet.antt: the abstract fleet, a partial map from ids to specs, and the refinement.
--     Manager/Create.antt: all outcomes of a create and of a delete.
--     Manager/Calls.antt: the backend calls, as the mock backend counts them.
--     Manager/Keeps.antt: what every call of a backend keeps, every sequence of messages keeps.
--   Worker/Server.antt: the four RPC handlers; Server/Replies.antt: what they answer.
--   Worker/CloudHypervisor/: cloud_hypervisor.rs. Config (data), Host (what is used of the host),
--     Client (the REST calls), Process (the process handle), Tap (TAP devices), Waiting (the two
--     loops that wait), Backend (prepare, spawn, build_config, attach_network), Laws (configurations
--     and TAP names), Prepared (the map of prepared VMs over a worker's life).
--
-- The CI service (ci_service/). Builds wait in a table of a database. The worker claims one with
-- `get_pending`, runs `nix flake check`, and sets the build's status or queues it again.
--   Ci/Builds.antt: ci_service/src/builds.rs.
--   Ci/Rows.antt: the conditions and orders of the SQL statements, as functions on rows.
--   Ci/Queue.antt: ci_service/src/job_queue.rs on the tables of ci_service/src/database.rs. A method
--     is a sequence of statements, and any statement may fail: the world says which ones will.
--     Queue/Pending.antt: which build `get_pending` gives; Queue/Logs.antt: logs;
--     Queue/Reads.antt: two reads over the database's LIKE and a reader of JSON.
--   Ci/Api.antt: ci_service/src/api.rs, the handlers on the queue; how a number is printed is a
--     parameter. Api/Created.antt: what a request for a build leads to.
--   Ci/Runner.antt: ci_service/src/worker.rs; `round` is one round of the loop of `run`.
--     Runner/Attempt.antt: what one attempt does to a build; Runner/Drain.antt: the queue drains.
--
-- Autonix (autonix/) reads what a repository declares, to build it. A scan of its directories finds
-- the files whose names it knows; each is parsed; what is found in a directory is analysed; the
-- analyses make the configuration of one flake.
--   Autonix/Version.antt: autonix/src/mapping/version.rs, the parser on the code points that are left
--     of the input, and `Display`. Version/Grammar.antt: the grammar of its comments, as predicates;
--     Version/Scan, Numbers, Identifiers and Accepts: that the parser reads just this grammar;
--     Version/Printing.antt: what is printed is read back.
--   Autonix/Mapping/: autonix/src/mapping. Languages, LockFiles, ParseErrors (outils.rs), Manifests,
--     Tasks, CiCd (cicdfiles.rs) and Containers have the kinds of files, their names and their
--     parsers; Versions is the enum of version.rs, Kinds the language and package manager of a
--     manifest (manifests.rs). Formats is what comes from other crates. `X_of` is the source's
--     `TryFrom<&str>`, `parse_x` its `Parseable::parse`. Tasks/Listed.antt: what is listed of a build
--     file; Containers/Stages.antt: stages.
--   Autonix/Repo/: autonix/src/repo. Paths, Scan (a directory's files) and Tree (the tree and its
--     iterator) are scan.rs; Found and Counts.antt say what becomes of the files in the tree,
--     Iteration.antt what the iterator gives, Missed.antt which files are not recognised.
--     Analysis.antt with its children is analysis.rs, Flake.antt with Merge and Build is flake.rs
--     (Services, Names and Latest are about its results), Parser.antt is parser.rs; Total.antt: a
--     configuration is made.
--
-- Repo_outils (repo_outils/) runs Nix and git. The programs and the file system are hosts that its
-- functions take; the readers of JSON and the type `f64` are parameters.
--   RepoOutils/Logs.antt: repo_outils/src/nix/logs.rs, with the function names of the source; the
--     `BTreeMap` of active steps is a list in the order of its ids. Logs/Steps.antt: what becomes of
--     a step; Logs/Messages.antt: which step gets a message; Logs/Timeline.antt: the tree of the
--     steps, on fuel, as the source recurs without a bound; Timeline/Ends.antt: the fuel that is
--     enough; Logs/Summary.antt: the summary.
--   RepoOutils/Git.antt: repo_outils/src/git.rs; paths are Unix texts.
--   RepoOutils/Flake.antt: repo_outils/src/nix/flake.rs; Flake/Declared.antt: its data.
--   RepoOutils/Commands.antt: repo_outils/src/nix/commands.rs; Commands/Checks.antt: a flake's check.
--
-- The cache (cache/) answers Nix about paths of a store, by running nix commands.
--   Cache/Host.antt: cache/src/main.rs, the state, the data and what is used of the host;
--     Cache/Serve.antt: the handlers, with the function names of the source; `narinfo` goes on in
--     `narinfo_of`, `known_path` and `describe`, `nar_handler` in `nar_of` and `dump`, which are the
--     parts behind its early returns. Parts.antt: texts taken apart as they were put together;
--     Files.antt: the files that a narinfo names, and refused requests.
--
-- Prelude.antt and Prelude/ hold what all share: tests on numbers and texts, lists, results and
-- actions on a state, and hash maps as association lists.
--
-- Parameters. Everything outside the repository is an argument: a VM's UUID, the host (files,
-- processes, HTTP, netlink, ioctl, the clock), the result of a nix check. The one hypothesis on the
-- host is that a sleep takes its time (`IsTimely`). For autonix: the deserialisers, the parser of
-- Dockerfiles, Unicode's lower case, derived `Debug` texts, and what reading a file gives. For
-- the cache: what nix commands give, base64 and ed25519. A path is a
-- list of its components; a component that is no text is `none`.
--
-- Bounds and fuel. A `u8` or `u32` is a natural number with its wrap-around written out. The loop of
-- `wait_for_socket` has a round of fuel more than its timeout has milliseconds: each round sleeps
-- for 10 ms or more, and running out of fuel is a result of its own, which is shown not to occur.
-- The loop that attaches a TAP makes 20 attempts, as in the source. `rounds` takes the number of
-- rounds of a loop that never ends. The loop over a version's identifiers has as much fuel as there
-- are characters left, and each round takes one; a `u16` is printed on fuel for five digits. `next` of
-- the scan's iterator has fuel for the nodes on its stack, and `collect` makes a number of calls of
-- it: both are enough from the size of the tree on. Counts of files wrap at 2^16, as in a release
-- build.
--
-- The hub (repohub/) keeps users, their projects and repositories in a database, makes bare
-- repositories with repo_outils, and answers over HTTP.
--   Repohub/Models.antt, Repohub/Configuration.antt: repohub/src/models.rs and its child.
--   Repohub/Database.antt: repohub/src/database.rs, the tables with their constraints, and the
--     statements, any of which may fail; Database/Queries.antt: the operations; Database/Rows.antt:
--     lists of rows; Database/Valid.antt: the constraints.
--   Repohub/Service.antt: repohub/src/services/repository_service.rs; Service/Existing.antt: when a
--     repository is there, over what git promises.
--   Repohub/Http.antt, Repohub/Web.antt: repohub/src/web.rs, pages, responses and what the handlers
--     share. A handler takes the state and gives its response and the next state. Web/Pages.antt,
--     Web/Changes.antt: the handlers; Web/Routes.antt: `routes`; Web/Lookups.antt: the user and the
--     project of a request; Web/Entered.antt: what a request enters, with Entered/Rows.antt: the
--     rows; Web/Kept.antt: sequences of requests and the tables, with Kept/Chains.antt: what the
--     handlers keep; Web/Names.antt, Web/Made.antt: requests for repositories.
--
-- Not modelled. Logging; the TCP accept loops and the start of the tasks; panics (a poisoned lock, an
-- id shorter than 11 bytes), but for those of autonix, where they are `none`; the opening of the
-- databases; the routing, the JSON and the templates, which are libraries' or macros' work. The control
-- plane's handlers (control_plane/) are empty, and the command line (cli/, commands/) parses arguments
-- and calls generated RPC clients.
pub mod Prelude
pub mod Worker
pub mod Ci
pub mod Repohub
pub mod Autonix
pub mod RepoOutils
pub mod Cache
