-- ===== src/Lib.antt =====
-- VireFS, a virtual file system library in Go: one interface over local directories, S3 object
-- stores, zip archives and a mount table, with hooks, routing of keys and migration.
--
-- Every store implements the interface `FS` of fs.go: a record of operations, each of which takes
-- a world to a result and a new world. The world holds all stores at once, so that two stores may
-- share state. A context is a function from the world to its error. `Error` keeps the chain of
-- wrapped errors, with formats and arguments unrendered, and `errors_is` searches it.
-- Keys are lists of bytes. The parts use one another as in the source: the mount table and the
-- stores clean keys by CleanKey, Walk goes by List, Migrate by Walk, Exists and Copy.
--
--   key.go      Key      `clean_key`; Key/Resolve is the description that it meets
--   fs.go       Fs       the types, `build_put_config`, `batch_delete`, `copy`; Errors, Effect
--   schema.go   Schema   routes, `resolve`
--   walk.go     Walk     `walk`, a recursion on fuel
--   mount.go    Mount    `mount`, `unmount`, `resolve`, the operations, `as_fs`
--   hook.go     Hook     `with_hooks`, `chain`, `base_fs`
--   migrate.go  Migrate  `migrate` and its callback
--   objectfs.go Object   the store; Object/Objects, Listing, Bulk and Links its operations
--   localfs.go  Local    the store; Local/Operations its operations
--   s3config.go Config   `new_s3_client`, `new_object_fs_from_config`
--   plugin/zip  Zip      the store in an archive, which Zip/Open opens; Zip/Archive has `pack` and
--                        `unpack`
--
-- Bytes, GoPath and Dict model what the sources use of Go's strings, path and maps. Base has the
-- shared helpers. Tests has a small store in memory, runs of the model, and the theorems at
-- concrete data.
--
-- Fuel: Walk recurs as deep as the directories of the store nest, which nothing bounds for an
-- arbitrary store. Walk/Fuel, Walk/Preorder and Walk/Visits say how much fuel is enough: more than
-- the rank of the prefix, where List only gives directories of lower rank, and more than the number
-- of all directories of the tree.
-- Counters are Go ints, kept as their 64-bit patterns.
--
-- A reader is what it yields when it is read to its end in some world: bytes, and an error if the
-- reading failed. Closing it changes the world, and its error is dropped, as in the sources. The
-- order of iteration over the mounts is an argument. Each lookup in the mount table, and each change
-- of it, sees one table, under its lock: Mount/Calls has the calls of all goroutines in one order,
-- and Copy, which looks up twice, takes the table at each lookup.
--
-- Fs/Readers says what opens and closes a reader; Migrate/Readers and Zip/Readers count the open
-- ones.
--
-- Object stores: the S3 client and the presign client are records of calls, and `Aws` has what else
-- the store uses of the SDK. List takes the number of pages that it may ask for as fuel;
-- Object/Pages says when they are enough, and Object/Entries what the entries of a page are. BatchDelete has one unit of fuel for each key.
--
-- Archives: package archive/zip is the entries that its reader gives and a record of its writer's
-- calls. The order in which List goes over the index, a map, is an argument. Zip/Written says what
-- Pack relies on, and Zip/RoundTrip what the reader gives for what the writer has written.
--
-- Local stores: the calls of package os are a record, and Local/FileSystem says what they do to the
-- contents of files, on a disk where different paths are different files. Paths are those of Unix.
--
-- What stores hold is a view of the world, from keys to contents. Fs/Contents has the words for it,
-- Fs/Store what one store promises; Local/Store and Object/Store look at local and at object stores
-- in that way, with Fs/Keyed for their keys, and Mount/Store and Zip/Store at a table of stores and
-- at an archive. Fs/Copying has what two stores that share nothing promise; Migrate/Policies uses it
-- for one file under each policy, and Migrate/Delivery and Migrate/Policy for a tree.
--
-- Not modelled: the text of errors, and values of the integer types ConflictPolicy and Provider other
-- than the named ones, and the error of filepath.Abs that localfs.go wraps beside ErrInvalidKey.
pub mod Base
pub mod Bytes
pub mod GoPath
pub mod Errors
pub mod Key
pub mod Effect
pub mod Fs
pub mod Schema
pub mod Dict
pub mod Mount
pub mod Hook
pub mod Walk
pub mod Migrate
pub mod Object
pub mod Config
pub mod Zip
pub mod Local
pub mod Tests
