-- ===== src/Lib.antt =====
-- Machnet, a userspace network stack over DPDK that applications reach through channels in shared
-- memory. An engine polls the device and the channels, hands each packet and each message of an
-- application to a flow, and checks the flows' timers.
--
-- Files, with the code that each is about:
--   Base, Base/*           the names that the modules share: Boolean tests on native numbers, lists by
--                          native length, 32-bit words with the wrap-around written out
--   Seq, Seq/*             the comparisons of 32-bit sequence numbers of src/include/tcp_flow.h
--                          (SeqLt and the rest) and src/include/cc.h (seqno_lt and the rest)
--   Tcp/Flow               the state of a TcpFlow, with its packets, src/include/tcp_flow.h
--   Tcp/Deframe, Deframe/* ConsumePayload: the received bytes become messages in message buffers
--   Tcp/Send, Send/*       control packets, data segments, PumpSend, retransmission, AdvanceSndUna
--   Tcp/Options            ParseTcpOptions
--   Tcp/Receive            InputPacket and the handlers of the states
--   Tcp/Connection         InitiateHandshake, StartPassiveOpen, ShutDown, OutputMessage, PeriodicCheck
--   Tcp/Handshake, Tcp/Messages, Tcp/Timer, Tcp/Invariant/*
--                          theorems on whole connections
--   Udp/Pcb                the protocol control block of a UDP flow, src/include/cc.h
--   Udp/RxTracking, RxTracking/*
--                          the reassembly of a UDP flow, RXTracking of src/include/flow.h
--   Udp/TxTracking, Udp/Flow, Udp/Receive, Udp/Batches, Udp/Transmit, Udp/Window,
--   Udp/Timer
--                          the sending buffers and the state machine of a UDP flow, TXTracking and Flow
--                          of src/include/flow.h
--   Base/Bits              the operator &, with powers of two and their masks
--   Ring, Ring/*           the ring of elements, src/ext/jring.h and src/ext/jring_elem_private.h,
--                          with the 32-bit products of counts and element size (Units)
--   Shm                    the message buffers, the pool and the data rings of a channel,
--                          src/ext/machnet_common.h
--   Shm/Cache              _machnet_buffers_alloc and _machnet_buffers_release of src/ext/machnet.c
--   Shm/Accounts, Shm/Bulk, Shm/Cached, Shm/Allocation, Shm/Release
--                          theorems on where the buffers of a channel are
--   Shm/Send, Send/*       machnet_send, machnet_sendmsg and machnet_sendmmsg of src/ext/machnet.c
--   Shm/Receive, Receive/* machnet_recv and machnet_recvmsg of src/ext/machnet.c
--   Shm/Roundtrip          both calls, with the rings between them
--   Shm/Layout, Layout/*   the size of a channel and the places of its parts,
--                          src/ext/machnet_private.h
--   Base/Bit, Base/Maps    single bits of words; hash maps as association lists
--   Engine/Ports, Ports/*  the ports and listeners that engines share, MachnetEngineSharedState of
--                          src/include/machnet_engine.h, with the search for a port (First, Alloc, Search,
--                          Shared), listeners (Listeners, Release, Reserved, Steps) and their return
--                          (Restore)
--   Engine/Arp, Arp/*      src/include/arp.h
--   Engine/Flows, Flows/*  the tables of one protocol of src/include/machnet_engine.h, whose code for UDP
--                          and for TCP is the same: HandleRTO (Check, Checks), process_rx_ipv4 (Calls,
--                          Packets), requests to listen and to create flows (Control,
--                          Listening), channels that leave (Removal,
--                          Dropping, Leaving)
--   Engine/Protocols, Protocols/*
--                          the engine with a table of UDP flows and one of TCP flows (Kinds):
--                          process_msg (Messages), pending requests (Requests, Loop), the slow timer, Run, and
--                          the table of one protocol in the course of its life (Runs)
--   */Tests                runs of the functions and inputs of the theorems
--
-- State is passed explicitly: a function of the source that mutates the flow takes a TcpFlow and
-- returns the new one. Field names are the source's without the trailing underscore. What the flow
-- hands out is logged in it, newest first: `tx` the packets for the TX ring, `callbacks` the flags
-- given to the application's callback, `freed` the buffers given back to the channel, and in the
-- reassembly `delivered` and `freed` the trains of buffers.
--
-- Outside the model, as parameters: the packet pool answers the k-th allocation by
-- `Env.packet_alloc k`, the channel answers by `Channel` (allocation of message buffers, enqueueing of
-- messages, size of a buffer), `UdpEnv` does the same for a UDP flow, and `GenerateISN` is the number
-- given to `new_flow`. A failed CHECK sets
-- `aborted`: the process has ended there, and the state after it has no meaning.
--
-- Fuel: `send_segments` has the length of the send buffer, since each round sends a byte or more;
-- `fill` has twice the bytes to copy and one, since a round that copies nothing is followed by one that
-- does; `consume_loop` has the length of the input and `parse_loop` the length of the options, since
-- each round consumes a byte or more. `find_hole` has one more than the 32 indices that it can read, and
-- `transmit_loop` the packets to send, since each batch has room for one.
--
-- In a channel, `gather_segment` has the bytes of the segment and one; `copy_message` takes its fuel as
-- an argument and needs one turn for each byte, one for each segment and one more; `make_room` is
-- bounded by the five retries of the source.
--
-- `find_free_port` has 65 rounds: each round but the last goes on behind the bit that it has tried, and a
-- slot has 64. `search_slots` and `add_slots` have one round for each slot that is left.
--
-- The engine takes a record of the operations of a flow, `FlowOps`; `udp_ops` and `tcp_ops` fill it with
-- those of the two state machines. The lists of flows of the channels are one map from iterators to flow
-- objects; those of a channel are destroyed when neither the engine's channels nor its listeners nor a
-- pending request holds it: at the end of ChannelsUpdate, or when the last request is erased. References
-- that the controller holds are left out. A hash map of the source is an association list: an order of
-- its entries is one that the source may have. `rte_softrss` and the queue of a hash are fields of
-- `EngineEnv`. Ports, addresses and keys are numbers in the byte order of the host.
--
-- A channel is seen by one thread at a time. A ring is a record with the counters of both ends; the
-- loops that copy several elements in a step copy them one by one. The memory of a channel is the
-- function `bufs` from the index of a buffer to its header and its bytes.
--
-- A LOG(FATAL) of a UDP flow sets `aborted` in the same way. The theorems on its reassembly are about
-- the packet numbers from 0 up to 64 below the wrap.
--
-- Left out of the model: the Ethernet and IP headers and the checksum of a packet, which are constants
-- of the flow or work of the device; the addresses in the first buffer of a received message; logging.
-- Of the library of the application, the control queues with machnet_connect and machnet_listen and the
-- system calls that create a channel are not modelled; nor are races of several threads on a ring. Of the
-- engine, the checks of the Ethernet and IP headers, the replies to ICMP, DumpStatus and the locks are left
-- out; the write of SrcPortRelease past a bitmap that is too short is not modelled. The engine's side of a
-- channel (src/include/channel.h), the controller and the drivers are not modelled.
pub mod Base
pub mod Engine
pub mod Ring
pub mod Seq
pub mod Shm
pub mod Tcp
pub mod Udp
