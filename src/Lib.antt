-- ===== src/Lib.antt =====
-- libAGML runs graphs of nodes that exchange messages, on threads of several machines. This library models
-- the parts that decide what happens, and proves what they are relied on for.
--
-- The program's parts, by the files of this directory:
--   Str       src/libagml_comm/util/string.{h,cpp}: the string helpers; a string is the list of its bytes.
--             Str.Replace has the replacements, Str.Tokens the loop over the tokens of a text.
--   Wire      src/libagml_comm/tcp/Socket.cpp (read_exactly, urls) and src/libagml_comm/common/Message.{h,cpp}:
--             Wire.Socket takes the kernel's side of a connection as two interfaces, Net with the documented
--             behaviour of recv, and Outlet with that of write, which takes up to 0x7ffff000 bytes whole;
--             Wire.Message is the message with its cursor, write and read, Wire.Message.Copy its copy, with
--             buffers as objects of a heap, and Wire.Url the address of a socket.
--   Topology  src/libagml_comm/topology/NodeGroup.{h,cpp}, Topology.{h,cpp}: groups, hosts and links. A group
--             pointer is the group's number, and add_host, assign, add_in, add_out, connect and add_group are
--             functions on the topology. Topology.Counters follows nb_out_nodes and nb_in_nodes through any
--             sequence of these calls, Topology.Nodes the ids of nodes, Topology.Routing is get_local_node,
--             send and send_out with the addresses of src/libagml_comm/common/com.cpp, Topology.Hosts the connections
--             to hosts, which a group's counters do not depend on. Topology.Fit is what the counters need of the
--             hosts of a model's groups.
--   Infos     src/libagml_comm/topology/Topology.cpp and Info.cpp with the byte streams of
--             src/libagml_comm/util/utils.{h,cpp}: what the processes tell each other of their nodes. Infos.Dump
--             has the two passes of the dumps, Infos.Update the reading, Infos.Report what is said, and
--             Infos.Exchange the update thread and the handlers of src/libagml_comm/common/Commands.cpp. The
--             sizes and initial memory of the infos are parameters, Layout.
--   Simulation  src/libagml_comm/simulation/Thread.cpp, src/libagml_comm/agml/node.cpp and the array and FIFO of
--             src/libagml_comm/util: a thread with its nodes and queue, and the turns of Thread::run. What a
--             node class does is a parameter, NodeCode, which changes its thread by calls of the library alone.
--             Simulation.Placement is instantiate_nodes with threads_get_lightest.
--   Reader    src/libagml_comm/topology/TopologyReader.cpp and DataHost.cpp: the statements of a model file.
--             Reader.Run executes them line by line on the topology and reads whole models.
--   Network   src/libagml_comm/common/com.cpp and Commands.cpp: the table of commands, the lists of hosts, in
--             Network.Requests what is asked of a node, and in Network.Dispatch, of src/libagml_comm/common/Host.{h,cpp},
--             the commands sent to a host and what is done with what comes from one. Network.Connection is the
--             thread of a connection: it reads messages by Wire, dispatches them, and ends as the connection does.
--   Matrices  src/agml/math/Matrix.{h,cpp}: matrices as objects that share and own arrays of floats.
--             Matrices.Memory has the arrays, Matrices.Owners the ownership through a program's statements,
--             Matrices.Messages, of src/agml/com/message.cpp, puts matrices in messages and takes them out. What
--             new floats hold, the arithmetic and the compiled vector routines are parameters.
--   Learning  src/agml/math/Matrix.{h,cpp} and src/agml_node_clustering: the parts of a matrix, the E step, and
--             in Learning.Codebook the state of a clustering node and what it exchanges. Learning.Evaluation is the node of
--             src/agml_node_clustering/eval that measures a codebook. Floats and the compiled
--             vector routines are parameters.
--   Nodes     src/agml/nodes: Nodes.Data is the node class of NodeData.cpp that divides its data among its
--             neighbours, Nodes.Average that of NodeAvg.cpp that averages data by giving away halves of sums and
--             weights, over arithmetic that is a parameter.
--   Files     src/libagml_comm/util/file.cpp: the names of files, and reading and writing their lines.
--
-- The reader's statements are what builds a topology; the topology's nodes live on the simulation's threads; a
-- message that a node sends along a link is routed by Topology.Routing to a thread's queue or over Wire to
-- another machine, where its address is decoded.
--
-- Integers are native natural numbers with the wrap-around of their width written out, and signed ones are
-- bit patterns. An exception, a null or wild pointer and a division by zero are values of Common.Outcome.
-- read_exactly runs on as much fuel as bytes are wanted, since every round brings one, and the queue of a
-- thread is emptied on its length, since the nodes of the thread add nothing to it. The thread of a connection
-- runs on fuel of one round for every header in what the connection delivers and one more, since every round but
-- the last takes a header. The loops over tokens and over the lines of a file run on the length of the text, of
-- which every round takes a byte or is the last.
--
-- Not modelled: sockets' connecting and accepting, threads and locks as such, the opening of files, shared
-- memory and the counters in it, the programs' command lines, the loading of node classes, the freeing of memory
-- but for messages' ownership flags and the arrays of matrices, and the numerical routines of the compiled
-- libraries. Of the modelled files the printing of infos, the travel of a model through a network of several
-- processes, the start, the stop and the rates of threads, and the parsing, the files and the powers of matrices
-- are left out.
pub mod Common
pub mod Str
pub mod Wire
pub mod Topology
pub mod Infos
pub mod Matrices
pub mod Nodes
pub mod Simulation
pub mod Reader
pub mod Network
pub mod Learning
pub mod Files
