-- ===== src/Lib.antt =====
-- A model of the decision logic of OpenBC's desktop program (crates/openbc-ui-qt/cpp), a Qt program
-- that compares files and folders over a library in Rust.
--
-- The parts and where they are modelled:
--   common/viewer_kind.h ............................ Viewers
--   common/file_kinds.h, common/archive_support.h,
--   viewers/picture/picture_extensions.h ............ Files (Kinds, SessionKind, Archives, Disk)
--   common/content_sniff.h .......................... Files.Sniff
--   common/drop_payload.h ........................... Drop.Payload
--   common/drop_router.h ............................ Drop.Types, Drop.Router
--   app/main_window.h, the drop block ............... Drop.Window
--   app/cli_options.h, app/cli_options.cpp .......... Cli (Parse, Kinds, Resolve)
--   app/context_menu_state.h, .cpp, on Linux ........ ContextMenu
--   home/release_logic.h ............................ Updates (Version, Plan)
--   options/text_editor_selection.h ................. TextEditor (Threshold, Decision)
--   viewers/text/text_editor_choice.h ............... TextEditor.Choice
--   common/diff_algorithms.h, groupDiffRows ......... Diff.Groups
--   home/session_history.h ......................... Sessions (Recent, Saved, Names)
--   viewers/picture/picture_exif.h .................. Exif (Memory, Values, Fields, Directories, Files)
--   viewers/folder/folder_model.h, NameFilter ....... Folder (Wildcard, Glob, Filter)
--   viewers/folder/folder_compare_viewer.h, the run . Folder (Status, Entries, Run)
--   remote/remote_profile.h, remote_profile_store.h . Remote (Profile, Json, Secrets, Codec, Tree, Store)
-- The command line and the drop handler both classify paths by Files and end in a kind of viewer; for
-- a text viewer TextEditor decides which editor shows it. What was opened is recorded by Sessions.
-- Exif reads what the picture viewer shows of a file. Folder decides what the folder viewer lists and
-- how it is marked: Entries classifies what the Rust library reports, and Run adds it up over the tree.
-- In Run the order in which workers report is a function at each level of the tree, any that loses and
-- adds no report; a state of a folder holds what NodeState holds, less the rows that are painted.
--
-- Names are those of the source in snake_case: `route` is `route`, `parseLaunchArguments` is
-- `parse_launch_arguments`, `record` is `record_session`, since `record` is a keyword. A text is a
-- list of character codes, a container is a list, a 64-bit product keeps its `% 2 ^ 64`. A function
-- that changes a file or the window takes the state and returns it, or lists its effects in order.
-- Loops are structural recursion on the list they walk. Three functions are on fuel: the decimal print
-- of a number in a message, with 64 digits, more than a 64-bit size has, and the loop over the segments
-- of a JPEG file, with as many rounds as the file has bytes, each of which goes on by one at least, and
-- the reading of a JSON tree, with its nesting. A group that `findNode` points to is changed by a
-- function on the tree, which makes the same search.
--
-- Parameters: Qt's operations on texts and file names (`Qt`), what a file system answers (`Disk`,
-- `FileInfo`), the saved connections (`Places`), the archive table of the Rust library
-- (`ArchiveTable`), the two clocks (`Clock`), floating-point numbers and their formats (`Doubles`),
-- Qt's regular expressions for masks (`Masks`), its JSON classes (`Json`), text encodings
-- (`Encodings`) and directory paths (`Paths`), and how the program was started (`Host`). The stable
-- sort of the C++ library is written out as an insertion sort.
--
-- Not modelled: widgets, menus, painting, the scheduling of threads and the calls into the Rust library;
-- in a comparison of folders also its cancellation, the ignored paths, refreshFolderPair, and the sort
-- of the rows.
pub mod Prelude
pub mod Viewers
pub mod Files
pub mod Exif
pub mod Folder
pub mod Drop
pub mod Cli
pub mod ContextMenu
pub mod Updates
pub mod TextEditor
pub mod Diff
pub mod Remote
pub mod Sessions
