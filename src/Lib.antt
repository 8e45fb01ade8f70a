-- ===== src/Lib.antt =====
-- Limine-Eucleia: a boot loader with a graphical menu.
--
-- The parts, and the files that model them:
--
-- Prelude, Word: lists measured by native numbers, sums over lists, the results of fallible runs
-- (a value, a call of panic(), or the end of a loop's fuel), and the arithmetic macros of
-- common/lib/misc.h at 64 bits, where the plain operators wrap.
--
-- Memmap: the memory map of common/mm/pmm.s2.c. Memmap/Entry has `struct memmap_entry`; an array
-- with its count is a list, and `memmap_max_entries` is an argument. Memmap/Claim is
-- pmm_new_entry(), which gives a range a type and cuts it out of the other entries.
-- Memmap/Sanitise is pmm_sanitise_entries(), one module for each pass: Separate with Overlap (the
-- usable entries lose what others hold), Clip (the first page, and empty entries), Sort, Merge,
-- and Passes for all four. Memmap/Alloc has what the rest of the loader calls:
-- memmap_alloc_range(), pmm_check_type(), pmm_free(), pmm_realloc() and get_memmap() of a BIOS
-- build (Range, High), ext_mem_alloc() and its variants as an x86-64 build has them (High), and
-- mmap_get_info() (Info). What a map says is read off by counting: of how many entries, and of how
-- many entries of a type, an address is in; an entry whose end is not representable holds no
-- address, as the code skips those.
--
-- Memmap/Elsewhere is common/lib/elsewhere.c, which finds a place for what a kernel wants at a
-- fixed address: elsewhere_append() with its search and retries (Place), what it makes sure of for
-- the target (Apart), and the whole with elsewhere_reserve_target() (Reserve).
--
-- Paging: common/mm/vmm.c. Pages is map_pages() with its calls of map_page() as values, and Tiled
-- shows that they cover the range; its loop runs on the number of pages of 4096 bytes.
--
-- Qoi: common/lib/qoi.c. Decode is qoi_decode(), which allocates its buffer from the memory map; a
-- word of its table of colours is a record of four channels. Stream describes a file by its
-- chunks, which refer to the pixels before them; Chunks and Image read such a file back, and
-- Filled and Safe are about any bytes.
--
-- Disk: common/lib/part.s2.c. Volume is cache_block() and volume_read(); the firmware's
-- ReadBlocks() is a parameter, of which a disk gives the bytes or fails, and the cache of a volume
-- is a list of bytes, allocated from the memory map. Cached, Kept and Read show that the cache
-- holds a block of the disk, and Source is what a file system relies on, filled by volume_read().
--
-- Fat: common/fs/fat32.s2.c. Context is fat32_init_context() from the bytes of a boot sector,
-- Table the entries of the file allocation table, the chains of clusters that
-- cache_cluster_chain() keeps in memory, and read_cluster_chain(); Contents, Followed, Listed and
-- Valid have their theorems. Each pass over a chain counts down the maximal length; reading runs
-- on the count of bytes, of which each turn reads at least one.
--
-- Menu: common/menu_model.c, which projects the tree of entries of common/lib/config.c onto the
-- rows that the menu shows. The tree is a data type with the pointers `sub` and `next`; the
-- callback that hides entries and the allocator's arrays are parameters. Matches is
-- menu_row_matches(), Path the path of a row, and Chained the rows above a row.
--
-- Ui: common/ui/display.c, the framebuffer that the menu draws on and its rotation (Display,
-- Rotated), blending and the UTF-8 decoder of common/ui/canvas.c (Blend, Codepoint), and the
-- values of a theme's properties of common/ui/config.c (Values: numbers, colours and the paths of
-- assets) with the reader of its documents (Document, Documented).
--
-- Text: common/lib/libc.s2.c, common/lib/libc.c, common/lib/misc.s2.c and common/lib/guid.c:
-- character classes (Chars), comparisons and searches (Strings), strtoui() and inet_pton()
-- (Number), strtoul() (Strtoul), and GUIDs as lists of 16 bytes (Guid). A string is the list of
-- its characters before the terminator; a pointer into a string is the rest of the string from
-- there on. The other files of the folder describe the texts that these functions read: Numeral,
-- Address, Saturated and GuidText.
--
-- Config: common/lib/config.c. Value and Entry have the lookups, config_get_value(),
-- config_get_tuple(), config_get_entry_name() and config_get_entry(); Lines and Sections describe
-- a configuration by its lines and its entries. Tree is is_child(), is_directory() and
-- create_menu_tree(), and Outline describes the menus that it is to build. Strip, Macro and Expand
-- are the passes of init_config() over the text, and Init is init_config(), which runs the
-- checksum, the passes, the menu and the cut behind each other; the hash function and the names of
-- the platform are parameters. What the requests for memory come to in a run is one more, the
-- record Memory: for each part of the run, whether all its requests are granted, and a refusal is
-- a panic. So load_macros, expand_macros, create_menu_tree and config_get_entry_name by themselves
-- take their requests to be granted, and init_config asks Memory before it runs them;
-- init_config_smbios takes the copy of the configuration that it found to be granted. Smbios is
-- smbios_struct_size() and init_config_smbios(), which looks for a configuration in the bytes of a
-- table, where a read outside the table is a panic; Table and Found describe the structures and
-- the configurations of a table, and Walked compares the loop with them.
--
-- Uri: common/lib/uri.c: uri_resolve() (Resolve), parse_bios_partition() (Partition), and
-- uri_open() up to the open file (Dispatch), where the volumes, the file systems and the network
-- are parameters.
--
-- Loops that do not go down a list run on fuel: pmm_new_entry() on twice the count of entries and
-- one, since each round goes on or removes an entry and a fragment is never cut again; the first
-- pass of the sanitiser on the square of the sum of the lengths, since each new start takes
-- something away from that sum; the second and the last pass on the count and one; mmap_get_info()
-- on twice the count and one, since each round moves a frontier past the end of an entry. In
-- Config, the passes over the text, the walk over an SMBIOS table and create_menu_tree() run on
-- the length of the text and one: each turn of a pass takes a character away, each turn of the
-- menu takes an entry, and each structure of an SMBIOS table takes four bytes or more. The
-- theorems exclude the end of the fuel.
--
-- Not modelled: the contents of memory (an allocation's clearing and copying), the firmware's
-- memory maps, 32-bit pointers, printing, and the parts of the program that are mostly input and
-- output.
pub mod Prelude
pub mod Word
pub mod Text
pub mod Memmap
pub mod Config
pub mod Uri
pub mod Disk
pub mod Fat
pub mod Qoi
pub mod Menu
pub mod Ui
pub mod Paging
