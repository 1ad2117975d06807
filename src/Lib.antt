-- ===== src/Lib.antt =====
-- rustyrouter: an init process that is a whole router. As process 1 it mounts the virtual file
-- systems, loads kernel modules, configures the interfaces and the firewall and then runs its
-- services: a DHCP client on the WAN side, a DHCP server and a DNS forwarder on the LAN side. The
-- client's lease is shared with the DNS forwarder, which asks the lease's first DNS server; the DHCP
-- server and the client speak one protocol through the same packet routines.
--
-- Which file is about which part:
--   Dhcp, Packet     messages and options as the crates give them, and the routines of
--                    src/packet.rs and src/services/utils.rs that build and read frames.
--   Server           src/services/dhcp_server.rs. LeaseTable is the lease table with its index of
--                    addresses, one function for each method; Replies the messages and frames;
--                    Handlers the checks on a packet and the four handlers; Serve the receive loop;
--                    Start the opening of the sockets and the loop around it. Index, Exclusive,
--                    Safety, Leasing, Observed and Unordered are about the table and the handlers,
--                    Restart and Panic about the whole server.
--   Client           src/services/dhcp_client.rs. Parse reads the replies, Mask is
--                    mask_to_prefix_len, Netlink configure_wan and deconfigure_wan, Lease the shared
--                    lease, Backoff, Jitter and Renewal the timers, Messages what is sent, Phases the waits
--                    and the phases that send and wait, Session bound_phase and run, Send the
--                    sending and start_dhcp_client, Received where the shared lease comes from.
--   Exchange         the server's replies as the client reads them, and the client's requests as the
--                    server reads them: Handshake from message to message, Answer the reply to a request as the
--                    client reads it, Wire from socket to socket.
--   Dns              src/services/dns_forwarder.rs. Cache is the cache of responses, Pending the
--                    table of waiting queries, Forward the way of a query, Answers and Delivery what
--                    arrives at either end, Machine the turns that the tasks take at the table
--                    (Once and Turns are about them), Running the forwarder as a whole with its
--                    cache, Entries what its operations keep, Provenance where the responses in the
--                    cache come from, Bytes what they are made of, Upstream the
--                    server that a query goes to under the client's lease.
--   Sntp             src/services/sntp_client.rs and resolve_dns_a_record of src/services/utils.rs:
--                    Retry is the loop of the client, Resolve the resolver and sync_time.
--   Netfilter        src/netfilter.rs. Names pads interface names, Rules is the batch of chains and
--                    rules, Kernel what runs them, Compare what their comparisons come to, Verdict what
--                    the rules let through, Outside what reaches the router from the WAN.
--   Network          src/network.rs.
--   RawSocket        the raw sockets of src/services/utils.rs.
--   Kmod             src/kmod.rs. Modules loads a module after its dependencies (Loaded and Listed
--                    are about it), Modprobe is the command line and the aliases, Wildcard the
--                    patterns of aliases, Files the search of the module directory and the loading
--                    of a file, Entry what the rest of the program calls, Helper a request of the
--                    kernel from the command line to the loaded module.
--   Init             src/config.rs, src/reaper.rs, src/system.rs, src/signal.rs and src/main.rs.
--                    Config parses the configuration. System is the trait SystemOps as a record of
--                    operations on the state of a system, RealSystem as an instance of it, and what
--                    goes through it; Mock is the test double; Reaper and Reaping are about
--                    reap_zombies. Boot is the order of the steps as a list of actions, and Machine
--                    the same start over the state of the kernel, with the tasks that are spawned and
--                    the names that they are given: Steps are its steps as process 1, Refines is
--                    about the two together, Guarded about what is in force when the services run.
--                    Tasks is the entry point, the power button and the reaper's loop. LanAddress
--                    compares what the parts make of the LAN address.
--   Suite            the unit tests in the files of src/, as functions into Bool over the model.
--   Prelude          lists, association lists, sets and texts; Tests the theorems at concrete inputs.
--
-- How the code is represented. Addresses, MAC addresses and transaction ids are natural numbers, a
-- MAC address being its six bytes in network order. A hash map is an association list and a hash set
-- a list. Instants are nanoseconds on one clock. A method that
-- reads the clock takes the reading as an argument: one reading for a scan of the table, and another
-- for the expiry of an entry that it then makes. A handler returns the new state and the frames that
-- it sends; a panic on a slice out of range is a value of its own. Asynchronous tasks are cut where
-- they wait: each function is what a task does between two waits, with the shared state, which is
-- locked at a time by one task, as an argument and a result.
--
-- What stands outside is a parameter: the DHCP codec (Dhcproto, with the laws of its setters, of its
-- options and of decoding what was encoded), the packet library (Pnet), the list and the test of the
-- addresses of a network (Ipv4Net) and the parsing of its text, netlink (Netlink, Handle), the parser
-- of DNS packets (DnsParser) and the resolver's socket and parser (Resolver), the nftables crate
-- (Rustables) and the way the kernel runs a rule (Nft, with a law for each expression that
-- says what it loads or compares, and one for each constant), the kernel
-- that loads modules (Loader) and the files and decompressors it reads them with (KernelFiles), the
-- constants of evdev (Evdev), the crate nix (Nix), and a kernel that keeps the rules that it accepts
-- (Installs). Platform puts the kernel's parts together, each with a state of its own. Random ids
-- are a sequence of draws.
--
-- A loop of the client that waits on its socket runs over a list with an element for each round: what
-- the wait receives until it times out, and the clock readings of the round.
--
-- Fuel: the search for a free transaction id takes a bound on the number of draws, since the code
-- draws until it finds one; any bound above the place of the first free number is enough.
-- The loop of reap_zombies over any system takes a bound on its rounds; any bound above the number of
-- children that have ended is enough where waitpid takes each child that it reports.
-- All other loops are by structural recursion on what they run over: the frames received, the
-- arguments, the lines of a file, the results of waitpid.
--
-- A directory of kernel modules is a finite tree, whose entries stand in the order in which the
-- kernel gives them. The panic hook is what runs on any panic; elsewhere a panic is a value.
--
-- Not modelled: the system calls themselves and the bytes of frames, the texts that are printed and the
-- conversions of errors to texts. They are input and output, or calls of other crates.
pub mod Prelude
pub mod Dhcp
pub mod Packet
pub mod Server
pub mod Client
pub mod Exchange
pub mod Dns
pub mod Sntp
pub mod Netfilter
pub mod Network
pub mod RawSocket
pub mod Kmod
pub mod Init
pub mod Suite
pub mod Tests
