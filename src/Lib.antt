-- ===== src/Lib.antt =====
-- A verification of the user-space network stack of this repository: Ethernet, ARP, IPv4 with
-- fragmentation and reassembly, ICMP, UDP and TCP on top of pcap, with the servers that use it.
--
-- The parts and how they interact. A frame that the driver received goes up through `ethernet_in`,
-- `net_in`, which looks up the protocol in `net_table`, and the handlers `arp_in`, `ip_in`,
-- `icmp_in`, `udp_in` and `tcp_in`, up to the handler of an application. A packet goes down through
-- `udp_out` or `tcp_out`, `ip_out`, `ip_fragment_out`, `arp_out` and `ethernet_out` to the driver.
-- Packets live in buffers that headers are added to and removed from, and all tables are maps with a
-- timeout.
--
--   Common      shared names, lists, bytes in memory, bit operations
--   Buf         src/buf.c, include/buf.h; the fields of the header structs
--   Map         src/map.c, include/map.h; Dictionary for the contract that it keeps
--   Utils       src/utils.c, include/utils.h: byte order and checksums
--   Stack       the global variables of src/*.c in one record; the entries of the tables; Json for
--               src/protocol_stats.c
--   Ethernet    src/ethernet.c, and `driver_recv` and `driver_send` of src/driver.c
--   Arp         src/arp.c
--   Ip          src/ip.c: Send, Receive, and Reassembly for the nodes of fragments
--   Icmp        src/icmp.c; Ping for `ping_req`
--   Udp         src/udp.c
--   Tcp         src/tcp.c: Input for `tcp_in`
--   Driver      src/driver.c: the choice of the interface and of the filter
--   Monitor     src/monitor_server.c: slots for clients, threads, broadcasts of the counters
--   Net         src/net.c, which ties the layers together
--   Text        C strings, and numbers in decimal
--   Http        app/web_server.c: Request for the handler, Response for what it sends
--   Echo        the handlers of app/tcp_server.c and app/udp_server.c
--   IpServer    app/ip_server.c
--   Servers     the `main` functions of app/*.c
--
-- State and operations. A function of the C code that changes global state takes the `Stack` and
-- returns it; each layer takes the layer it calls as a parameter, and Net supplies them. A `buf_t *`
-- is the receive buffer, the transmission buffer or a buffer of its own, so that functions that are
-- handed `&txbuf` while others set it up anew are modelled with that aliasing. A pointer to a value in
-- a map is the index of its slot. What has no defined result in C, such as a write through NULL, is a
-- fault. The names are those of the C code, without the prefix `buf_` or `map_` in Buf and Map.
--
-- Numbers and bounds. `uint16_t`, `uint32_t`, `uint64_t` and `size_t` values wrap as in C where the
-- code can reach the bound; a byte of memory is a number, and writes through a struct store bytes. The
-- payload array of a buffer is a memory without an end, of which the packet may use 131325 bytes. The
-- `while` loop of `checksum16` has fuel for three rounds: one round takes a 32-bit sum below 0x1ffff,
-- the next to 16 bits, and the last finds nothing to fold. The loop of `ip_out` has fuel for a round
-- for each whole fragment of 1480 bytes and one more, since the packet does not grow meanwhile. A
-- packet that comes back through the loopback address takes one round of the fuel of `net_poll`. The
-- loop that sends a file has fuel for a round for each byte and one more. The loops of the web server
-- over a request read memory behind it until they find a blank, so their fuel is an argument; a request
-- that begins with GET and a blank needs four rounds, and the loop that copies the path ends by a fault
-- at the end of its array.
--
-- Threads and loops. The threads of the monitor server are steps of a relation, each of which is what one
-- thread does under the lock or between two calls of the system. The endless loops of the servers are
-- given the results of polling, with the time of each, as a list.
--
-- Assumptions. The host is little-endian. The payload array of a buffer stands so far from both ends of
-- the address space that the pointers which `buf_add_header` and `buf_add_padding` compare do not wrap
-- around; for lengths where they would, the model is not the code. `buf_copy` is given packets of less
-- than 65662 bytes, as all callers do, so its `buf_init` succeeds. An `int` that overflows wraps. Every
-- IPv4 address that pcap lists has a network mask. The clock, `time (NULL)`, stands still within one call of a
-- handler. An address is handed on by value, that is, the bytes behind a pointer are read when the
-- pointer is passed on. Structures used as keys have no padding. The build has ICMP, UDP and TCP.
--
-- Not modelled: what is printed; the set-up of sockets in `monitor_server_thread`; `LoadNpcapDlls`;
-- the window of monitor_gui.py; the pages of the web server, whose files are a parameter; the test
-- programs; and Npcap, the interface of another project, whose calls are arguments and results.
pub mod Common
pub mod Buf
pub mod Map
pub mod Utils
pub mod Stack
pub mod Ethernet
pub mod Arp
pub mod Ip
pub mod Icmp
pub mod Udp
pub mod Tcp
pub mod Net
pub mod Text
pub mod Http
pub mod Monitor
pub mod Driver
pub mod Echo
pub mod IpServer
pub mod Servers
