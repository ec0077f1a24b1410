-- ===== src/Lib.antt =====
-- cmdr-cxx is a header-only library (libs/cmdr11/include/cmdr11) for programs with a tree of
-- commands and flags. This development models its own logic over text as lists of character codes,
-- numbers as native naturals, and maps as association lists.
--
--   Base      shared names, list and text functions, maps (std::unordered_map: the order of the
--             list stands for the order of iteration, which the standard leaves open)
--   Text      cmdr_string.hh: tokenize, split, join, replace_all, prefixes and suffixes, strip,
--             strip_quotes, trim and conv::itoa. `isspace` is a parameter. The loops of split and
--             replace_all run on fuel, one more than the length of the text, and every round goes
--             further in it.
--   Queue     cmdr_priority_queue.hh: the element tree with push and pop, the walks and the iterator,
--             with the assert in its next. The comparer is a parameter; the theorems on order ask of it that it is a total preorder
--             by the sign of its result.
--   Store     cmdr_var_t.hh and cmdr_var_t_inl.h: the tree of options. All nodes that were made stand
--             in one heap, and a node_pointer is a place in it. A set runs on fuel, one more than the
--             length of the key.
--   Command   cmdr_cmd.hh and cmdr_cmd_inl.h: the flags of one command with add(arg). A pointer to a
--             flag is its place in _all_args; what add throws is a value beside the command that it
--             leaves, and the call of on_arg_added is the place that it is called with. Subcommands
--             has add(cmd), and Lookup find_flag and find_command.
--   Match     cmdr_impl.hh: matching_command over the two maps of titles of the current command, with
--             the hits that it counts.
--   Invoke    cmdr_impl.hh: invoke_command, the hooks around the action of a command. A hook is any
--             function on a world that returns an int or throws; the calls are logged.
--   Messages  cmdr_pool.hh: threaded_message_queue. Every operation holds the mutex and is one step; a
--             run is any order of steps, which stands for any number of threads.
--   Parse     cmdr_impl.hh: the loop of app::run over the words. Scan is matching_flag_on, Word is
--             process_flag with its rounds over combined flags, Loop is process_command and the loop,
--             After is check_required_flags and after_run. Commands and flags stand in two lists, and
--             pointers are places in them. The streams that read values, the hooks and the pick of a
--             likely command are parameters. The loops run on fuel: one round for each word, in a
--             word one for each character and one more, up the owners one for each command and one
--             more. That is enough where every command was made behind its owner.
--   Options   cmdr_impl.hh: what on_arg_added and on_arg_matched write into the store, for one arg and
--             for all that a command line matches, and dotted_key of cmdr_cmd_inl.h.
--   Pool      cmdr_pool.hh: conditional_wait, thread_pool_lite and thread_pool, with the threads as a
--             step relation. What a thread does under a mutex is one step.
--   SmallString  cmdr_small_string.hh: small_string_preallocated for char, with the wrap of the size
--             in its last char written out.
--   Observable   cmdr_common.hh: observable with its ways to lock, registerer, and the callbacks of
--             observable_bindable and signal.
--
-- Match, Command and Store are the parts that the parser calls; Parse takes the matching of commands
-- from Match. Invoke is what after_run calls last.
--
-- Not modelled: the sorted views and help screens, the callbacks of the app, and the messages for
-- unknown input with the likeness of titles. Nor are the loaders, the durations of cmdr_chrono.hh, the
-- patterns of cmdr_if.hh, terminal output, logging, processes, memory-mapped files, and the conversions
-- of variables, since these rest on the standard library's streams.
mod Base
pub mod Text
pub mod Queue
pub mod Store
pub mod Command
pub mod Match
pub mod Invoke
pub mod Messages
pub mod Parse
pub mod Options
pub mod Pool
pub mod SmallString
pub mod Observable
