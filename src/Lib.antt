-- ===== src/Lib.antt =====
-- The core of smews, a web server for small devices: core/ of the repository. It receives one packet
-- at a time, keeps a circular list of connections in its own allocator, and sends one segment at a time.
--
-- The parts, each in the file of its name:
--   Memory       core/memory.c: the allocator on the 32-bit words of alloc_buffer. A block is an address in
--                words and the links are stored in the cells, as struct free_bloc_s is.
--   Checksum     core/checksum.inl: the running checksum with its carry and place.
--   LinkCache    core/link_layer_cache.c. The time is an argument.
--   Timers       core/timers.c: the list of timers, and what is called.
--   Handlers     core/handlers.h and core/handlers.c: what a connection is served with.
--   Service      core/service.c and if_select of core/coroutines.c: segments in flight and their release.
--   Connections  core/connections.h and core/connections.c. Ring is the circular list with its links, Ring/Walk
--                the loop FOR_EACH_CONN, and Store adds and frees connections in the ring and the allocator.
--   Address      the compressed IPv6 addresses of core/connections.c.
--   Receive      smews_receive of core/input.c: Ip its header of IPv4, Tcp acknowledgements and the state
--                machine, Tree the walk through a tree of words and, in Tree/Ternary, the bytes that
--                tools/GenBlob.py writes for it, Request the characters of a segment from the command to the
--                arguments, Request/Finish what begins and ends a request, Commit what follows a right checksum.
--   Send         core/output.c: Packet lengths and the header of IP, Segment the rest of smews_send_packet,
--                Select the choice of smews_send among the connections, Room the memory for a segment of a
--                generator, Generate one segment of a handler with out_c and cr_run, Generate/Response all segments
--                of a response and a client that reads them, Generator the branch of smews_send for
--                generators with retransmission and comet, Verify the sum of a packet at its receiver.
--   GpIp         packets of other IP protocols in core/input.c and core/output.c, and out_c for them.
--   Coroutines   core/coroutines.c: who has the shared stack, its bytes, and where the other stacks are.
--   Generators   core/generators.c, and the reading of numbers in core/input.c.
--   Retransmit   smews_retransmit of core/smews.c.
--   Icmp         apps/icmpv4/icmpv4.c: the handler that answers an echo request.
-- Base holds what they share: Boolean tests, arrays as lists, and the widths of the integers of C.
--
-- Integers of w bits are native numbers with % 2 ^ w written out where C wraps. Loops that follow
-- links take fuel and answer none when it runs out: one round for each word of the buffer is enough for the
-- allocator, one for each connection for the ring, 2 ^ 16 for each timer, 4 for the end of a checksum and one for
-- each byte for the tree. The functions of the driver, the clock and the callbacks are arguments or
-- values; a handler of contents is known by its address. The build that is modelled has IPv4, comet,
-- arguments, timers, coroutines and handlers of other IP protocols, and no POST; the compressed
-- addresses are those of the build for IPv6.
--
-- A handler of contents is known to the generator's branch by the characters that it gives to out_c, and
-- by a function for the bytes of stack that it uses; services, coroutines, contexts and buffers stand at
-- their addresses there.
--
-- Not modelled: the switch of stack pointers, which is assembly; POST, which the modelled build is without; IPv6
-- but for its compressed addresses; the main loop and the start, which call the parts in turn; the drivers under
-- targets/ and, but for the echo, the applications under apps/.
pub mod Base
pub mod Memory
pub mod Checksum
pub mod LinkCache
pub mod Timers
pub mod Handlers
pub mod Service
pub mod Connections
pub mod Receive
pub mod Address
pub mod Retransmit
pub mod Generators
pub mod Coroutines
pub mod Send
pub mod GpIp
pub mod Icmp
