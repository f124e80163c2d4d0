-- ===== src/Lib.antt =====
-- A verification library for C programs of the package feed.
--
-- The parts
--   packages/gargoyle/libericstools is a library of containers that the Gargoyle firewall and
--   bandwidth tools link. Its src/tree_map.c has a map from unsigned long to pointers, the long_map,
--   which is an AVL tree, and on it the string_map, which stores a key's entry under a hash of the key.
--   Its src/string_util.c has functions on C strings, and its src/list.c a doubly linked list.
--   luci/libs/lmo/src holds the C parts of the LuCI web interface. Its template_utils.c has a growing
--   buffer, a UTF-8 filter and the escaping for XML and Lua, which write to such buffers. Its
--   template_lmo.c looks translations up, by a hash of the text to translate.
--   packages/gargoyle/qos-gargoyle/src/qosmon.c is a daemon that pings a host and adjusts the limit of
--   the link to the ping time.
--   packages/gargoyle/libiptbwctl sends bandwidth histories to a kernel module and gets them back. Its
--   src/ipt_bwctl.c lays out the buffers, saves the histories in files, and dates their nodes.
--   packages/gargoyle/gargoyle-firewall-util/src/make_iptables_rules.c turns a section of the
--   configuration into iptables commands, with the strings, lists and maps of libericstools.
--   packages/adkill/src is a netfilter module against advertisements; its strcmd.c has the tests on
--   hosts and headers, and its advhash.c the table of the hosts.
--
-- Which file models which part
--   Common.antt, Common/: Boolean tests, lists and signed integers over the native numbers.
--   TreeMap.antt: long_map_node, stack_node, rotate_left, rotate_right, rebalance, and the walks and
--     loops inside set_long_map_element and remove_long_map_element. A tree is a value. The pointer to
--     the parent on the explicit stack is a frame: a node with a hole for the child where the walk went
--     on; writing the child's pointer is filling the hole. A read through NULL is `none`.
--   TreeMap/Maps.antt: the functions of tree_map.c on a whole long_map. A function that returns a
--     pointer and changes the map returns the value with the new map. The NULL value is a parameter.
--   TreeMap/Strings.antt: sdbm_string_hash, initialize_string_map, and get, set and remove on a
--     string_map.
--   TreeMap/Strings/Listing.antt: get_string_map_keys and apply_to_every_string_map_value.
--   TreeMap/Sorted, Contents, Height, Laws: what a map stands for, a sorted association list, and the
--     AVL condition. TreeMap/FixLeft, FixRight, Rebalance, Grown, Shrunk: rotations. TreeMap/Places,
--     Paths, Walk, Unlink: places in a tree. TreeMap/Steps, Reading, Client, Traversal, Ends, Destroy,
--     Depth, Strings/Laws, Strings/ListingLaws: the operations.
--   Lmo/Buffer.antt: template_buffer and the functions buf_*. The bytes before dptr are a list. A write
--     past the allocation is `none`. Whether malloc and realloc give a block is a parameter.
--   Lmo/Utf8.antt: the functions mb_*, _validate_utf8 and utf8. A pointer into the input with the
--     number of bytes left is the list of those bytes.
--   Lmo/Text.antt: what text is, by arithmetic on code points. Lmo/Sequences, Copies, Texts: the tests
--     of the filter against it. Lmo/BufferLaws, Utf8Laws, RoundTrip: the operations.
--   Lmo/Markup.antt: pcdata and luastr_escape. Lmo/Pcdata, LuaString: the proofs about them.
--   Lmo/Catalog.antt: lmo_entry, lmo_archive, lmo_find_entry and the loop of lmo_translate, of
--     luci/libs/lmo/src/template_lmo.c. A pointer into an index is a position. Lmo/Hash.antt: sfh_hash,
--     lmo_canon_hash, lmo_translate. Lmo/Search, Ascending, Canon, Translate: the proofs about them.
--   Adkill/Strings.antt: is_digit_host, domain_contain_digits and get_http_field of
--     packages/adkill/src/strcmd.c. Adkill/Digits: the proofs.
--   Adkill/Hosts.antt: advhash.c; a chain of the table is a list. Adkill/HostLaws: the proofs.
--   StringUtil/Strings, Splitting, Replacing, Reading: the functions of string_util.c; a C string is
--     the list of its bytes. Common/Fields: the fields of a line, without C. StringUtil/SplitLaws,
--     RoundTrip, Trim, ReplaceLaws, ReadLaws: the proofs.
--   ListStore/Store, Nodes, Reading: list.c, on a store that has a node or none at each address; a read
--     or write through a bad address is `none`. ListStore/Links, Relink: what it is for a store to hold a
--     list, and what a write leaves of it. ListStore/Removal, Ends, Client, ReadingLaws: the operations.
--   Qosmon/Ping.antt: tvsub, pr_pack and the loop that reads pongs. Qosmon/Checksum.antt: in_cksum.
--     Qosmon/Classes.antt: print_class over a dump, class_list. Qosmon/Machine.antt: tc_class_modify and
--     the switch of the main loop, on a record of its variables and a record of what a round observes.
--     Qosmon/Loop.antt: a round of the main loop, which composes these. Qosmon/Measured, Limits, Startup: the
--     proofs. Products with floating point numbers are parameters, with laws on their rounding.
--   Bandwidth/Layout.antt: the bytes of an integer, as a record with laws, and fread. Bandwidth/Files.antt:
--     save_history_to_file and load_history_from_file of ipt_bwctl.c. Bandwidth/Blocks.antt: set_ip_block,
--     set_bandwidth_data, parse_returned_ip_data. Bandwidth/Responses.antt: get_bandwidth_data, over a
--     kernel that is a function on the buffer. Bandwidth/Intervals.antt: get_next_node_start_time and
--     get_interval_starts_for_history. Bandwidth/Calendar.antt: localtime and mktime as laws, and the next start. Bandwidth/Usage.antt: save_usage_to_file and load_usage_from_file.
--     Bandwidth/FileLaws, BlockLaws, ResponseLaws, IntervalLaws, UsageLaws: the proofs.
--   Firewall/Text.antt: what make_iptables_rules.c uses of strings. Firewall/Quoted.antt: parse_quoted_list.
--     Firewall/Definitions.antt: the options that are known. Firewall/Options.antt: parse_ports,
--     parse_marks, parse_ips_and_macs, parse_option and the loop of get_rule_definition.
--     Firewall/Rules.antt: compute_multi_rules, and the loop over the masks. Firewall/Checks, Matching,
--     Generate, Commands: compute_rules; the blocks of it that add the rules of a dimension are data that
--     run_dimension runs. Firewall/QuotedLaws, OptionLaws, RuleLaws, Dimensions, Groups, Grouping,
--     GroupedRules, MarkLaws: the proofs.
--   Bandwidth/Examples, Firewall/Examples, StringUtil/Examples, Qosmon/Examples, ListStore/Examples, Adkill/Examples, Adkill/HostExamples,
--     TreeMap/Examples, Lmo/Examples, Lmo/Samples, Lmo/MarkupSamples: runs, and the theorems at concrete
--     inputs.
--
-- Bounds and fuel
--   unsigned long and unsigned int have 32 bits, as on the routers; the wrap-around is written out. char
--   is signed in the hash of a string_map. The balance of a node, a signed char, stays between -2 and 2.
--   destroy_long_map runs on fuel above the number of elements: each round removes one. utf8 and
--   pcdata run on fuel above the length of the input: each round reads a byte at least.
--   The loops of string_util.c run on fuel above the length of the string or of the file: each round
--   takes a byte at least.
--   The loops of list.c run on fuel above the number of values, and one.
--   set_bandwidth_data runs on fuel above the number of blocks: each buffer takes one at least. The loop
--   of get_next_node_start_time takes one turn, and its loop to Sunday seven: a fuel of 8 is enough.
--   lmo_find_entry runs on fuel above the number of entries: each round takes one away at least.
--
-- What is not modelled
--   Of ipt_bwctl.c: the semaphore and the sockets, the printing, and get_minutes_west, which is a
--   parameter. In Bandwidth/Intervals a time is not negative, and the sums of times do not wrap around; in the
--   blocks a time_t is its 32 bits, with the wrap-around.
--   Of make_iptables_rules.c: main, UCI, sscanf, and freeing.
--   A trip time of qosmon.c that is negative or has 2 ^ 31 milliseconds: pr_pack has no result for it.
--   Of qosmon.c: the netlink and socket calls, the arguments, the status file. Of string_util.c:
--   convert_to_regex, the sorts, the shell command. Of advhash.c: the search of all nodes by URL, freeing
--   and printing.
--   Freeing and its order, except what destroy_long_map passes to free; the failure of malloc in
--   tree_map.c, which exits. The Lua, JavaScript and shell parts, the makefiles and the patches are not
--   C. The kernel module and the clients are around system calls. Copies of other projects' code (MD5,
--   memrchr) are left out. The priority queue of libericstools, the quotas of the
--   firewall, cpulimit, adkill's configuration and the template parser are C code that is not modelled.
pub mod Common
pub mod Adkill
pub mod Bandwidth
pub mod Firewall
pub mod ListStore
pub mod Lmo
pub mod Qosmon
pub mod StringUtil
pub mod TreeMap
