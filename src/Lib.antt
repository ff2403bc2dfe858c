-- ===== src/Lib.antt =====
-- Verification library of libvirt-sandbox: the console protocol between host and guest, the
-- configuration of a sandbox, and the start of the guest.
--
-- The program runs an application inside a libvirt domain. On the host, libvirt-sandbox-console-rpc.c
-- connects the local stdin, stdout and stderr with the domain's console device; in the guest,
-- libvirt-sandbox-init-common.c runs the application and serves the other end. Both speak the
-- protocol of libvirt-sandbox-protocol.x: after a handshake of single WAIT and SYNC bytes they
-- exchange packets, each a length word, a header and a payload, which libvirt-sandbox-rpcpacket.c
-- encodes and decodes.
--
-- The files (paths of the sources are from the repository's root):
--
-- Base.antt, Base/ — numbers, lists, tests, the wrap-around of `unsigned int` and `gsize`.
-- Protocol.antt — libvirt-sandbox/libvirt-sandbox-protocol.x: constants and the header struct.
-- Protocol/Xdr.antt — the XDR routines, which are not source of the repository (`xdr_u_int` is the C
--   library's, the filters of the messages are made by rpcgen): a record of functions, which the
--   model takes as an argument, and their laws, which the theorems take as a hypothesis. The laws
--   say that a value has a fixed size, that what was encoded is decoded again whatever follows it,
--   and that a filter fails exactly where too few bytes are left. Protocol/BigEndian.antt has
--   functions for which they hold.
-- Buffer.antt — the memory of a packet as a function from positions to bytes, and `memcpy`.
-- Result.antt — results of fallible functions: `ok`, `err` with the GError's message and the object
--   as the call leaves it, and `fault`, which stands for an access outside a buffer or a string, or
--   through NULL, and which no function of the C code returns.
-- Packet.antt — libvirt-sandbox/libvirt-sandbox-rpcpacket.c: gvir_sandbox_rpcpacket_new is `new`,
--   gvir_sandbox_rpcpacket_decode_length is `decode_length`, and so on. Packet/Safety.antt has the
--   decoding functions on any input, Packet/Encode.antt what the encoding functions leave in the
--   buffer, Packet/RoundTrip.antt sending and receiving.
-- Console.antt — libvirt-sandbox/libvirt-sandbox-console-rpc.c: the private struct of the host's
--   console as a record. Console/Packets.antt has the build_* functions, Console/Events.antt
--   do_console_rpc_set_state and update_events, Console/Terminal.antt attach, detach and close,
--   Console/Receive.antt dispatch_proc and process_packet_rx and _tx, Console/Io.antt the callback
--   of the stream, Console/Local.antt those of the local files, Console/Step.antt all of them under
--   a main loop. Console/Invariant.antt and Console/Safety/ are the invariant and its proof;
--   Console/Stdout.antt, Console/Stderr.antt and Console/Delivery.antt follow the guest's output.
-- Guest.antt — libvirt-sandbox/libvirt-sandbox-init-common.c: the local variables of `eventloop` as a
--   record. Guest/Calls.antt has read_data and write_data, Guest/Packets.antt the gvir_sandbox_encode_*
--   functions, Guest/Host.antt the branch of the host's channel and run_command, Guest/Stdin.antt and
--   Guest/App.antt those of the application and of its exit, Guest/Loop.antt the poll set and the loop.
--   Guest/Invariant.antt and Guest/Safety/ are the invariant and its proof, Guest/Order.antt,
--   Guest/Deaf.antt and Guest/Exit.antt follow the stdin, the reading and the exit status.
-- Session.antt, Session/ — packets of one side as the other receives them.
-- Raw.antt — libvirt-sandbox/libvirt-sandbox-console-raw.c, the host's console without the protocol:
--   Raw/Events.antt has do_console_raw_update_events, Raw/Terminal.antt attach, detach and close,
--   Raw/Io.antt the callbacks, Raw/Step.antt all of them under a main loop. Raw/Bounded.antt and
--   Raw/Bounds.antt have the bounds of the queues, Raw/Order.antt and Raw/Direct.antt the bytes that
--   go through them over a stream and over a pseudo-tty.
--
-- Config.antt — libvirt-sandbox/libvirt-sandbox-config.c and the objects of a configuration
--   (libvirt-sandbox/libvirt-sandbox-config-mount.c, -disk.c, -network.c and so on) as records.
--   Config/External.antt has what is used of GLib and libvirt-gconfig (hash tables, key files,
--   addresses, enumerations) as a record of functions with their documented laws, Config/Text.antt
--   the string routines and decimals of C. The add_*_opts and add_*_strv functions are in
--   Config/NetworkOptions.antt, Config/EnvOptions.antt, Config/DiskOptions.antt (with
--   libvirt-sandbox/libvirt-sandbox-util.c), Config/MountOptions.antt and Config/Includes.antt,
--   set_security_opts in Config/Security.antt; the modules below each have what it does.
--   Config/Groups.antt has the names of the groups of a configuration file, whose indices are numbers
--   without a bound where the source has a `guint`, Config/KeyFile.antt the
--   calls that set and get keys, Config/Save.antt the save_config* functions, Config/Load.antt and
--   Config/Load/Core.antt the load_config* functions and init. Config/RoundTrip.antt and the modules
--   below it save a configuration and load it again. Config/Examples.antt is a simple GLib for which
--   the laws hold.
-- Machine.antt — libvirt-sandbox/libvirt-sandbox-builder-machine.c (the loops of
--   construct_devices, and write_mount_cfg) and construct_disk_cfg of
--   libvirt-sandbox/libvirt-sandbox-builder.c: the devices as a list, the files as bytes.
--   Machine/Devices.antt compares the two.
-- Boot.antt — the other end of these files: mount_mkdir, mount_entry, mount_root and the loop of main of
--   libvirt-sandbox/libvirt-sandbox-init-qemu.c, and setup_disk_tags of
--   libvirt-sandbox/libvirt-sandbox-init-common.c, as the lists of the system calls that they make.
--   Boot/Lines.antt has the lines of a file, Boot/Entries.antt and Boot/Mounts.antt mounts.cfg,
--   Boot/Disks.antt disks.cfg, Boot/Mkdir.antt the making of directories.
-- Setup.antt — libvirt-sandbox/libvirt-sandbox-init-common.c ahead of the application: start_dhcp,
--   add_address, add_route, setup_network_device and setup_network as the commands that they start
--   (Setup/Commands.antt), setup_custom_env and change_user (Setup/User.antt), the latter in
--   both builds, with libcap-ng and without it. The process is a record. Setup/Environment.antt and
--   Setup/Identity.antt have what the two leave of it. libcap-ng is not source of the
--   repository: it is a record of functions, with a hypothesis on them. The process's capabilities
--   are not modelled.
--
-- The settings of a configuration are strings without NUL, lists of bytes. Where the C code goes on
-- through a NULL pointer or behind the end of a string, the result is `fault`. GLib's own string
-- functions (comparisons, searches, upcasing) are those of C. A product that overflows a `gint` wraps
-- around.
--
-- A state of the console is a record and each callback a function from it to a result; what the
-- surroundings answer (bytes that arrive, how many bytes a write takes, whether a call fails) is an
-- argument, so that a run is a list of events. A read never hands over more than it is asked for and
-- a write never takes more than it is given: the model cuts the answers to that. There is no fuel:
-- the receive loop recurs on the answers of the stream, and behind the last one the stream would
-- block. In the same way the guest's loop is given the reports of one poll after the other, each with
-- what the calls on the descriptors answer; a `goto cleanup`, which ends the loop, is an `err`.
--
-- What the guest does at its start is the list of its system calls (Boot.antt), or a log of the
-- commands (Setup.antt). mount_mkdir recurs on fuel, one more than the length of the path, which is
-- enough since a parent is shorter. The names of virtio disks are letters for the first 26 of them,
-- and the theorems about the two files are about no more.
--
-- Not modelled: the reference counts of GObject, the debug output, the texts of the messages, the
-- terminal attributes themselves (only whether the calls succeed), and the parts of the program
-- away from the console protocol, the configuration and the start of the guest: the contexts, the
-- command line, the initrd and the container builder. Of the machine builder there are the devices
-- and the two files, but not the failures to write them; of the start of the guest what reads those
-- files, the network, the environment and the user, but not the loading of modules, the kernel's
-- command line, the shell and the init of a container. In the configuration: the accessors of single
-- properties, reading and writing the file itself, the classes for services. In the guest, a
-- failure of poll and the syncing and unmounting of file systems ahead of the EXIT packet.
pub mod Base
pub mod Protocol
pub mod Buffer
pub mod Result
pub mod Packet
pub mod Console
pub mod Guest
pub mod Session
pub mod Raw
pub mod Config
pub mod Machine
pub mod Boot
pub mod Setup
