-- ===== src/Lib.antt =====
-- FatFs, the file system that the AFL++ harnesses of this repository exercise, over their drive in
-- memory: filesystem_code/ff.c and filesystem_code/diskio_fuzz.c in the configuration of
-- filesystem_code/ffconf_fuzz_override.h (sectors of 512 bytes, the tiny buffer, code page 437, no
-- long names, no exFAT), and the file locks that another configuration has.
--
-- The program is a stack of layers, each of which calls the one below. Each is a module:
-- - Diskio: the drive of diskio_fuzz.c, 128 sectors of bytes with a bounds check, and the loading of
--   a test case.
-- - Volume: `FATFS` and `FRESULT` of ff.h. The fields that mounting sets are a `Geometry`, a parameter
--   of the functions; the fields that change, and the drive, are a `Fatfs`. A function of ff.c is an
--   `Act`: it takes a `Fatfs` and ends with a value and a `Fatfs`, or with an error code and the
--   `Fatfs` that it leaves. Volume/Ends says that a call ends, and how.
-- - Window: `sync_window`, `move_window`, `clst2sect` and the little-endian words. All higher layers
--   reach the drive through this window of one sector.
-- - Fat: `get_fat` and `put_fat`. Fat/Entry is the specification: the FAT as numbers, read off the
--   bytes of the volume as the window and the drive hold them together (`view`).
-- - Chain: `remove_chain` and `create_chain`. Chain/Links is the specification: chains as lists of
--   clusters in a table of statuses.
-- - Boot: the tests of `check_fs` on a boot sector and of `mount_volume` on the parameters in it;
--   Mount: `check_fs`, `find_volume` and `mount_volume` over them. Mount/Found is the specification:
--   which sector of a drive has the boot record.
-- - Sync: `sync_fs`.
-- - Dir: `dir_sdi`, `dir_next`, `dir_clear`; Dir/Table: `dir_alloc`, `dir_read`, `dir_find`,
--   `dir_register`, `dir_remove`. A `DIR` is a record, and a call returns it with its error code.
-- - Name: `create_name` and `get_fileinfo`, and `follow_path`, which walks down a path by `dir_find`.
--   A path is a list of bytes.
-- - File: `validate`, `f_read`, `f_sync` and `f_close`; File/Write: `f_write`; File/Seek: `f_lseek`;
--   File/Truncate: `f_truncate`. What they do is proved in File/Written,
--   File/Moved, File/Cut and File/Recorded.
--   A `FIL` is a record, which a call returns with its code. The id of the mounted volume, which
--   `validate` compares, is an argument.
-- - Share: the table of open objects (`chk_share`, `inc_share`, `dec_share`, `clear_share`), for the
--   configurations that have it. Share/Access is the specification: how each object is open.
-- - Api: the functions that take a path. `FatFs[0]`, `Fsid` and the drive are a `System`; a call mounts
--   the volume if need be and runs its body, an `Act`, on it. Api: `get_ldnumber` and `f_mount`;
--   Api/Lookup: `f_opendir`, `f_closedir`, `f_readdir`, `f_stat`; Api/Opening: `f_open`; Api/Removal:
--   `f_unlink`; Api/Creation: `f_mkdir`; Api/Rename: `f_rename`; Api/Space: `f_getfree`.
-- - Script and Harness: an iteration of the loop of `filesystem_code/harness.c`: `iteration`, with its
--   parts `read_path` and `write_path`; Harness/Rounds puts them together.
--   Harness/Programs: an iteration of the programs in `harnesses` that begin with a clean volume. A
--   `Script` is a piece of C code that calls ff.c: it takes the state and gives it back.
-- - Examples: the theorems on a small FAT12 volume.
--
-- Numbers. BYTE, WORD, DWORD and LBA_t are natural numbers, cut off at their width (Base/Word) where
-- an operation can leave it; a mask of low bits is a remainder and a shift a product or a quotient.
-- A byte array is a function of the index.
--
-- Loops run on fuel. The loops over a chain and over the clusters have one round per cluster of the
-- volume and one more, those over a directory table one per entry of the largest table and one more,
-- and `dir_sdi` one per byte of the offset and one more. The
-- transfers have one per byte, and a seek one per byte of the offset and one more. Running out is an
-- outcome of its own, which `Ends` excludes.
--
-- Soundness of a volume (`IsSound`) is a hypothesis of most theorems: a clean window holds what the
-- drive holds, and bytes are below 256. Where a volume has a second FAT, `sync_window` writes a copy of
-- each sector of the first to it, so a call that only reads can still change it when the window was
-- dirty: what theorems say of bytes that stay as they are leaves out the second FAT of a volume with
-- two (`IsPlain`), and nothing of a volume with one. `HasFat` says that the FAT lies on the drive and has room for
-- every cluster; Mount/Layout and Mount/Wrap relate it to what mounting checks.
--
-- Not modelled: the code that this configuration leaves out (long names, exFAT, trimming,
-- reentrancy), `f_mkfs` and the string functions, the rest of the harnesses, and the fields of the
-- geometry after a mount that was refused (they are not read before the next one sets them, except by
-- a clean window).
pub mod Base
pub mod Diskio
pub mod Volume
pub mod Window
pub mod Fat
pub mod Chain
pub mod Boot
pub mod Mount
pub mod Sync
pub mod Dir
pub mod Name
pub mod File
pub mod Share
pub mod Api
pub mod Script
pub mod Harness
pub mod Examples
