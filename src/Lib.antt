-- ===== src/Lib.antt =====
-- RO-DOS, a small 32-bit operating system with a command shell: a model of the parts that keep state
-- in C, and what holds of it.
--
-- The shell hands each line to `cmd_dispatch` of src/commands.c, which looks up a command and calls
-- its function. The functions work on static tables (files, users, file contents, processes) and
-- save the file tables to disk after each change; a start loads them again. The network stack of
-- src/tcp_ip_stack.c gets packets from the driver by polling, and src/scrollback.c keeps the lines
-- that scroll off the screen.
--
-- * Text is the string and number helpers at the top of src/commands.c. A `char *` is the list of
--   bytes from it on, where the end reads as 0, and a `char[n]` is a list of n bytes.
-- * Array is the loops over static arrays that the other parts share: searches with a `break`,
--   shifting down, buffers that are padded.
-- * Fs is the file system of src/commands.c. Fs itself declares the tables, one record `Fs` for the
--   static variables, arrays whole and with their counts. Fs/Path builds `full_path` and moves the
--   current directory; Fs/Commands has MKDIR to COPY (`cmd_mkdir` …, named as in the source) on a
--   `Machine`, the tables and a disk; Fs/Users has USERADD to LOGOUT; Fs/Contents has
--   `save_file_content`, CAT and FORMAT; Fs/Disk has `fs_save_to_disk` and `fs_load_from_disk`.
-- * Fs/Device is the interface of the sector device, which `disk_read_lba` and `disk_write_lba` fill.
--   Saving and loading are first looked at on an array of sectors (Fs/Disk/RoundTrip); on a device
--   that behaves as one, they go as they do there (Fs/Disk/Simulation), and the functions of
--   src/handlers.c make such a device of a drive that follows the ATA protocol (Ata/Blocks).
-- * Dispatch is `cmd_dispatch` over the rows of the modelled commands, and sessions of lines.
-- * Process is the process table of src/commands.c, with PS and KILL.
-- * Net is the table of interfaces of src/network_interface.c, and Dhcp is src/dhcp_client.c. Of
--   src/tcp_ip_stack.c, Arp is the ARP cache, Ip the checksums and the frames that go out and the ARP
--   packets that arrive, Dns the query for a name and the answer to it, and Tcp the connection. Stack
--   puts the five together as `ip_receive` does, with `udp_process`, the bytes of TCP segments and
--   `tcp_connect`. Bytes is the loads and stores that they share.
-- * Shell is the command line of src/shell.c: keys, lines and the history.
-- * Mouse is the driver of src/drivers/mouse.c, from the bytes of the mouse to the pointer.
-- * Ata is src/drivers/ata.c on ports that are a parameter, and Ata/Handlers `disk_read_lba` and
--   `disk_write_lba` of src/handlers.c. `AtaDisk` of Ata/Protocol and `Drive` of Ata/Drive say what
--   a disk is relied on for.
-- * Pci is src/pci.c, also on ports that are a parameter: the scan of the bus and the WiFi cards.
-- * Scrollback is src/scrollback.c, and Utils the memory, string and integer functions of src/utils.c.
-- * Prelude is shared notation, lists over the native numbers, and the rules for automation.
--
-- A command returns an Option: `none` stands for a write or a read outside an array, which C does
-- not catch; the theorems say when there is none. Texts that a command prints are left out, but for
-- those of CAT and PS. Keys that are typed are an argument. The 32-bit numbers wrap where the source
-- can reach the wrap. The loops run on lists, on the number of rounds that are left, or, in
-- `int_to_str`, on ten rounds, the digits of a uint32_t. Loops over packets run on fuel: 313 rounds
-- for the 312 bytes of DHCP options, one more than there are bytes for names, two for the folding of a
-- sum. A driver's answers are arguments, and so are the packets that arrive while the code waits.
--
-- Not modelled: the assembly files, the drivers that talk to ports and video memory (src/drivers
-- but for the mouse and the ATA disk, src/rust_driver_stubs.c, src/firmware_loader.c), the windows
-- of src/gui_apps.c and src/gui_calc.c, and the commands that only print. NANO and WGET, the
-- waiting of `dns_resolve`, the delays of src/utils.c, src/syscall.c and the interrupts
-- of src/handlers.c are not modelled either.
pub mod Pci
pub mod Prelude
pub mod Text
pub mod Array
pub mod Fs
pub mod Dispatch
pub mod Mouse
pub mod Net
pub mod Bytes
pub mod Dhcp
pub mod Ip
pub mod Ata
pub mod Stack
pub mod Shell
pub mod Dns
pub mod Utils
pub mod Arp
pub mod Tcp
pub mod Process
pub mod Scrollback
