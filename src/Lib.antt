-- ===== src/Lib.antt =====
-- oly is a program for rules on data: it reads collections from a data source (src/data_source),
-- node by node, turns each scalar into a typed value (src/node/tag.c), and hands the nodes on
-- through a queue (src/node/node_queue.c), whose keys and strings lie in a ring of characters
-- (src/core/string_buffer.c). Every function reports one of the codes of src/oly/olytypes.h.
--
-- Paths are from the root of the repository.
--   * Status, Status/Message: the codes of src/oly/olytypes.h, and get_errmsg and init_errmsg of
--     src/core/get_errmsg.c over a table of messages, which is a parameter. Status/Ltdl is the same
--     for the errors of libltdl, src/data_source/get_ltdl_errmsg.c.
--   * StringBuffer: src/core/string_buffer.c. A pointer is an offset from the start of the buffer,
--     memory a function of the offset, differences and the size of a reservation are taken modulo
--     2^64 as in a size_t.
--     StringBuffer/Layout says how memory stands for strings, StringBuffer/Inv what a valid buffer
--     is and which queue it stands for, StringBuffer/Fifo treats single calls and sequences of them,
--     StringBuffer/Overrun strings that are too long. An assertion that fails is `none`.
--   * Tag: src/node/tag.c. Tag/Icu is the interface to ICU and to the C library, a record that the
--     functions take: expressions, number parsing, and how a union reads through another member.
--     Tag/Check and Tag/Import are the functions of the table, Tag/Basic the table and its users,
--     Tag/Typed what a value is by its type, Tag/Regexps how the expressions are compiled.
--   * Node: src/node/node.c. Node/Heap has allocation and the stack of nodes, Node/Depth the depth,
--     Node/Stack the chain of parents.
--   * NodeQueue: src/node/node_queue.c on top of Node and StringBuffer. NodeQueue/Ring has the
--     arithmetic of the indices, NodeQueue/Keeps the steps of an enqueue that leave the ring alone,
--     NodeQueue/Fifo the calls, NodeQueue/Keys the key of a node in the string buffer.
--     Accesses to the slots are taken to be within what was allocated.
--   * Boundary: src/data_source/boundary.c, the two buffers between the encoding of a data source
--     and the UTF-16 of ICU, whose two conversions are parameters. Boundary/Layout has the division
--     of the allocation, Boundary/Rows strings that lie one behind the other, Boundary/Transfer the
--     single steps, Boundary/RoundTrip the way from put_char_in to get_ochar_out, Boundary/Bounds
--     sequences of calls.
--   * DataSource: src/data_source/data_source.c. DataSource/Bits has the operators on the bits of
--     an unsigned int, DataSource/Settings the options, the buffer size and the depth,
--     DataSource/Staging the key of the next node, DataSource/Produce enqueue_ds_node, which builds
--     a node from a value over the boundary: DataSource/Produce/Keyed treats strings with a key,
--     DataSource/Produce/Records many of them, DataSource/Produce/Faults nodes without one.
--     The function pointer `dispatch` is left out.
--   * Hash: src/hash, the words of a hash (Hash/Words) and its hexadecimal text (Hash/Hex).
--     fprintf, sscanf and Keccak are parameters.
--   * Config: src/core/config.c. Config/Main has load_main_config, Config/Find treats the lookup of an
--     item, Config/Load what load_main_config reports. BUFSIZ, the names in the resource file, the
--     conversion of a key, strtok_r and the files with their events are parameters.
--   * Yaml: src/data_source/oly_yaml.c, the count of a document over the tokens of libyaml.
--     Yaml/Returns shows that it ends, Yaml/Counts what it gives for nested mappings.
--     Yaml/Print has the functions that print a file, as lists of what they print, with the buffer of
--     BUFSIZ characters that some of it goes through.
--   * StartUp: src/core/init_oly.c. StartUp/Environment has cleanenv and get_home, which build the
--     environment of the program in one allocation, clean_from the part behind get_home; getenv and the directory of the user are
--     parameters. StartUp/Descriptors has clean_io_open and open_devnull over the table of open
--     descriptors, StartUp/Locale the locale and the encoding of the start.
--   * Lifetimes: what opening and closing a string buffer, a node queue, a data source and a boundary
--     allocate and free, with Lifetimes/Balance. Of each structure there are the blocks it points to,
--     and the parents that link the stack of a queue.
--   * Resources: src/resources and init_primary_resource of src/core/init_oly.c, over the blocks and
--     the bundles that are in use. ures_open is a parameter.
--   * BasicFunctions: the conversions of strings of src/core/basic_functions.c, and the size of a
--     file. What u_uastrncpy and u_austrncpy do to the memory is a parameter.
--   * Debug: src/debug. Debug/Indent has level_indent, Debug/Tree the listing of a tree of resources
--     by flags, and Debug/Tree/Shown what is shown of it.
--   * PrintDemo: src/print_demo, the parts of a text between the boundaries of a break iterator, which
--     is a record of functions. PrintDemo/Walk says how one moves, PrintDemo/Ranges what is printed.
--   * Routing: src/core/dispatch.c, the two data sources of the global state, over a store of data
--     sources by their addresses. Routing/Ends treats the two ends together.
--   * Run: src/core/oly_run.c, the two loops that move the nodes from one data source through the
--     queue to the other. Run/Receive and Run/Send treat one of them each, Run/Deliver
--     what the second hands on. The function pointers of the data sources are functions of the data
--     source, and what the unset pointer of oly_send points to in each round is a parameter.
--
-- Bounds: a string buffer of less than 2^62 characters, so that no difference of offsets wraps.
-- Fuel: copy_out runs on the room of the destination, which the loop itself counts down;
-- string_at on the cells up to the end of the buffer, which is a terminator; close_collections on
-- the difference of depths that ends the loop; close_oly_ds_node on a number that is given, with
-- `none` where it is used up; the two loops of oly_run on a number of rounds, of which the second
-- needs one more than the queue has nodes; the closing of a stack on one round more than it has
-- nodes; the count of a YAML document on the number of its tokens, each of which is scanned once at most; the loops of print_demo on a number of turns, of
-- which there must be as many as boundaries. The other loops count a length down.
--
-- Not modelled: ICU, libyaml, the C library and the resource file, which are parameters where they
-- are used; allocation that fails, where the program exits; init_oly and main, which call the parts
-- of the start one after the other, with the opening of the streams; the programs of src/debug that
-- only print (print_config, bash_printing, the lists of countries, languages and locales);
-- src/get_rules.c, which only calls ICU; the copies of other projects in lib.
pub mod Prelude
pub mod Status
pub mod StringBuffer
pub mod Tag
pub mod Node
pub mod Lifetimes
pub mod NodeQueue
pub mod BasicFunctions
pub mod Boundary
pub mod Config
pub mod Debug
pub mod DataSource
pub mod Hash
pub mod PrintDemo
pub mod Resources
pub mod Routing
pub mod Run
pub mod StartUp
pub mod Yaml
