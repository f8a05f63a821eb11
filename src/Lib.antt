-- ===== src/Lib.antt =====
-- Cloak (desktop_folder_locker) keeps folders encrypted and shows them as drives. Its native
-- code is three Rust crates: native/vault2 stores an encrypted folder, native/drive mounts it
-- and talks to the app, native/shell adds entries and badges to Explorer. This library models
-- their logic and proves what it promises.
--
-- Vault2 is native/vault2. Error is error.rs, with the way a fallible method is written: an
-- `Action S A` takes the state of the object and returns its result with the state it leaves,
-- after an error too. Crypto holds the cipher and the random numbers as a parameter with the
-- laws that their documentation states; Crypto.Toy is a cipher that meets them. Content is
-- content.rs: Disk is the stored file as the operating system keeps it, Codec the layout of
-- blocks and their encryption, File the methods of `ContentFile`, one child module for opening,
-- growing, writing, resizing and reading each, which are named as in the source (`open_block`
-- is `Codec::open`, `open_file` is `ContentFile::open`). Holds is the abstract view: an
-- encrypted file holds a plain file, each stored block opening to its bytes. Header, Grow,
-- Rewritten, Grown, Cut and Resize follow growing and cutting, Loop, Write, WrittenBlocks and
-- Written the loop of `write_locked`, Chunks and Read the loop of `read_at`, Joined takes
-- writes together; Lengths is the arithmetic between stored and plain lengths, Blocks a single
-- block. The loop of a read runs on fuel, the number of stored bytes, which is more than the
-- number of blocks; the loop of a write on the number of blocks.
--
-- Vault2.Keys is keys.rs, over HKDF as a parameter. Vault2.Names is names.rs: Defs its
-- functions over hashes, base64 and a cipher that are parameters, Trip encrypting a name and
-- back, Entry the directory entries that names stand under, Utf8 which texts are UTF-8. A name
-- is its bytes in UTF-8. Vault2.Platform is the conversion of times of platform.rs.
--
-- Vault2.Vault is vault.rs. Paths is how it takes paths apart, Maps its HashMaps and the paths
-- of stored items (innermost name first, from the data folder), Disk the calls of std::fs on
-- folders that are functions from stored paths. Folders has the record `Vault` and `dir`,
-- Reading `read_entries` and `find`, Lookup `lookup` and `parent`, Changes what the changing
-- methods share, Creating, Removing and Renaming these methods with `moved`, Opening `create`,
-- `open`, `open_file`, `file_len` and `list`. A vault and its handles are one state; a file
-- object is a number whose path and users the state holds. Names, content files, random IVs and
-- the names of temporary folders are arguments. Walk is the specification: a folder as a map
-- from folded names to items, with the conditions on the tables (current) and the disk (tidy)
-- under which it is defined. Agreement, Ivs, Exact and Found relate lookup to it, Parents plans
-- a creation, Laws is what the names promise, and Named that the functions of names.rs keep it.
-- Added, Grown, Kept, Written, Entered, Prepared and Created follow a new file, Refused a
-- creation that fails, New a new vault. Toy has short names that meet the laws, Runs a scenario
-- with renames and removals, and Stored the theorems over names.rs with a name that needs a
-- file beside it.
--
-- Vault2.Tree is tree.rs. Reader is `read_full` over an open file whose reads may be short,
-- interrupted or fail, Copying the loops over a file of `import_dir`, `verify_dir` and
-- `export_dir`, Sources the folder of the system that is imported, with `scan`, Walking
-- `import`, Verifying `verify`, Leaving `vault_stats` and `export`, over the calls on a vault
-- as an interface. Copied, Cancelled, Compared, Exported and Trip follow a file over
-- content.rs, Tally is what `scan` counts, Counted, Ordered and Imported what an import counts.
-- The loops over a file run on more rounds than the file has bytes, and `read_full` on one for
-- each answer of the system and two more; the folders of a vault are walked to a depth that is
-- an argument.
--
-- Drive is native/drive. Protocol is protocol.rs (`import_folder` and `export_vault` are the
-- commands Import and Export), Header the parser of header.rs and Keys its `keys`, Letters the
-- drive letter and serial number of drives/windows.rs, Jobs the cancel flags and the progress
-- of jobs.rs, where a flag is an address that a job and its worker share. Flags is the table of
-- requests that the flags stand for, Cancelling what follows for requests, Stopping how a
-- cancelled request stops. Helper is main.rs as steps of the reading thread and of the threads
-- it spawns, and Early a cancel that comes too early. Drives is the rest of drives/windows.rs:
-- Mounts its table with what a thread does while it holds the lock, Mounting `mount_now` and
-- `unmount` as steps of several threads between these locks, Waits the waits of `unmount` and
-- Unmounting it as a whole, Views the laws of the table, Held with Exclusive and Counted with
-- Counts what holds however the threads run, Changed what its steps do to the table together,
-- Answers what `unmount` answers while the drive may close. The waits run on as many rounds as
-- they last at most. Handler is drives/handler.rs: Status its status codes, Files the calls on
-- an open file, which go to content.rs, Served what a program sees of them, InUse the number of
-- open files, Create `create_file` over the calls of the vault, which are an interface,
-- Attributes times and attributes, Shown what is seen of the attributes, Volume what is told of
-- the drive, Named the calls by name over Vault2.Vault, and Top what they do at the top folder.
--
-- Shell is native/shell. State is state.rs up to `Items` and `normalize`, Cache its `State`
-- with `fresh` and `reload` over a world that holds the two files, the time and the change
-- notification; Menu is menu.rs (the verb Open is `open_vault`) and Badge badge.rs. Owner is
-- the search of the list that the map of paths stands for, Entries relates entries and badges,
-- Inside which paths are in a vault or a Recycle Bin, Quote is how Windows reads an argument,
-- Fresh how old an answer can be, and Shown the answer of shown.rs to the app. JSON and
-- lowercasing are parameters; texts are lists of character codes (Common.Text).
--
-- Not modelled: disks that fail, the order in which the operating system writes bytes, locks
-- (outside Drive.Drives, each method holds the lock of its object for all it does), and the
-- calls of Windows, Explorer and Dokany. The app in lib/ is written in Dart and not part of
-- this library.
pub mod Common
pub mod Vault2
pub mod Drive
pub mod Shell
