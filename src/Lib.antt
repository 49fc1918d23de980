-- ===== src/Lib.antt =====
-- Verification library of nazg, a local-first assistant for projects, containers and terminals.
--
-- The program is one executable of modules that are wired together by the engine. Modelled here are
-- the parts that decide and transform without the operating system:
--
-- * The terminal multiplexer. modules/tui/src/managers/layout.cpp keeps the panes of a window in a
--   binary tree (Layout), and modules/tui/src/window.cpp the panes themselves, the active one, the
--   zoom and a saved layout (Window). `Layout::split_pane`, `remove_pane`, `snapshot`,
--   `restore_from_snapshot`, `calculate_positions`, `get_pane_at_position` and
--   `get_pane_in_direction` are functions of these names in Layout, Layout.Snapshot, Layout.Areas and
--   Layout.Direction; `Window::split_active`, `close_active`, `navigate`, `toggle_zoom`,
--   `save_layout` and `restore_layout` are functions of these names in Window, which call them.
--   Window.Render holds the sizes that `Window::render` gives to the panes.
--   Window.History joins the calls to sequences.
-- * The way from a project to a build. modules/brain/src/planner.cpp decides what to do (Planner),
--   modules/task/src/builder.cpp and executor.cpp turn the plan into one shell line (Task), which
--   `shell_quote` of modules/system/src/process.cpp quotes (Shell).
-- * Failures of a build. modules/brain/src/pattern_matcher.cpp compares error messages
--   (Brain.Levenshtein, Brain.Similarity) and keeps patterns (Brain.Patterns, Brain.Patterns.Learn),
--   learner.cpp records and classifies failures (Brain.Learner), and recovery.cpp suggests, executes
--   and retries recoveries: Brain.Recovery and its modules Machine, Suggest, Execute, Auto and
--   Params. Its execution calls the shell line of Task and the restore of Workspace.Restore.Run.
--   detector.cpp finds the language and the tools of a project (Brain.Detector,
--   Brain.Detector.Frameworks).
-- * Compose files. modules/docker_monitor/src/compose_parser.cpp reads them line by line
--   (Compose.Lines, Compose.Parse) and finds what the services depend on (Compose.Dependencies).
-- * The start order. `topological_sort` and `calculate_start_order` of
--   modules/docker_monitor/src/orchestrator.cpp order the services of a server (Orchestrator;
--   its edges are counted in Orchestrator.Edges).
-- * Snapshots of a project. modules/workspace/src/manager.cpp compares them (Workspace.Diff), prunes
--   them (Workspace.Prune) and restores from them: Workspace.Restore selects the paths, with the
--   comparison for a smart restore, and Workspace.Restore.Run copies them.
-- * Tokens. modules/nexus/src/crypto.cpp encrypts them for the store (Crypto).
-- * The schema. modules/nexus/src/migrator.cpp runs the migrations of the database (Migrator).
-- * Input. modules/tui/src/tui.cpp hands each event to the prefix key, the command bar, a command or
--   the active window (Managers.Input), with the bindings of managers/key_manager.cpp
--   (Managers.Keys).
-- * Commands. modules/tui/src/managers/command_manager.cpp keeps the commands by name
--   (Managers.Commands), and command_bar.cpp the line that is typed (Managers.Commands.Bar).
-- * Modes and menus. modules/tui/src/managers/mode_manager.cpp keeps the mode and the prefix key
--   (Managers.Modes), menu_manager.cpp the stack of menus, which sets the mode (Managers.Menus),
--   and pane_reaper.cpp the queue of the closed panes (Managers.Reaper).
-- * Messages. modules/agent/src/protocol.cpp frames what agents and the control center send
--   (Protocol).
-- * The settings. modules/config/src/config.cpp reads the config file and answers questions about
--   it (Config).
-- Base holds what these share: lists, texts as lists of bytes, `std::map`, `std::getline`.
--
-- State is passed: an operation takes the state and returns the new one with its result. A pointer
-- to a pane is a number, a pointer into the tree is a path from the root, an index into the lines
-- of a file is the list of the lines from there on, and a stream is a text.
--
-- `*parent = std::move(*promote_ptr)` in `Layout::remove_pane` reads a node after the move has
-- freed it. What it reads there is a parameter, `Stale`, of the model: the ratio of the split, and the
-- right child as well where the pane that is closed is the right half.
--
-- The loops of the compose parser run on fuel, one unit for each line that is left. Every step
-- of a loop reads a line, so that this is enough (Compose.Parse.Totality). The loop of
-- `topological_sort` has a unit for each node in its first queue and each node with an edge to
-- it (Orchestrator.Totality). The loop over the combined hashes of manifests has a unit for each
-- byte, of which every step takes one at least (Workspace.Diff). What the worker of the reaper
-- needs is stated in Managers.Reaper.Drain.
--
-- Parameters: the commands that a runner executes and how long they take (`Runner`), the panes
-- that a restore creates, the dependencies that the store returns for a service, what the store and
-- the file system answer to a pruning or a restore of snapshots (`SnapshotStore`, `World`), the database
-- (`Connection`, with the versions in its table), OpenSSL (`Host`, with the laws `IsGcm`), what menus
-- and their factories do (`Menu`), and what the command bar, a menu and a command do with an event (`Handlers`). The ratios of
-- splits are counted in hundredths, since 0.5 is the only one that the program stores; sizes are
-- natural numbers, for which the product with it is exact below 2^24.
--
-- In Brain the store is a parameter as well: `Sources` and `PatternStore` hold its answers (the machine
-- of a recovery lists the calls that write, not those that read), and
-- modules/nexus/src/store.cpp says which columns a row has. Further parameters are regular
-- expressions, `std::sort`, the conversions between numbers and texts (`Numbers`) and the machine on
-- which a recovery runs (`Devices`). Scores are exact ratios where the code has doubles; numbers of
-- records are not negative. All loops of Brain are structural and need no fuel.
--
-- Not modelled: the statistics and the reports that Brain prints, the drawn elements and
-- pseudo-terminals (FTXUI, a library), the store (SQLite), the modules that wrap git, docker, ssh
-- and curl, process start-up, and logging, which changes no result.
pub mod Base
pub mod Layout
pub mod Window
pub mod Planner
pub mod Shell
pub mod Task
pub mod Brain
pub mod Compose
pub mod Config
pub mod Orchestrator
pub mod Workspace
pub mod Crypto
pub mod Managers
pub mod Protocol
pub mod Migrator
