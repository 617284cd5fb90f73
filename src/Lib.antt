-- ===== src/Lib.antt =====
-- Verification of lanky, a scripting language with a bytecode compiler, a virtual machine and a
-- mark-and-sweep collector. The program, with paths from the repository's root:
--   src/grammar and src/compiler parse a program into a tree and compile it to a code object; -c writes
--     the code object to a file (src/interpreter/serialize.c, src/compiler/exporter.c);
--   src/interpreter/lky_machine.c runs code objects, one stackframe for each call;
--   src/interpreter/lky_gc.c frees what neither a root, nor a stackframe, nor a loaded module reaches;
--   src/stdlib and src/interpreter have the containers that all of this stands on.
--
-- What is modelled, one module for each part, with its proofs in child modules:
--   HashTable   src/stdlib/hashtable.c, hst_*. A chain is the list of its nodes from the head, a value
--               the address that is stored (0 is NULL), and KeyOps the two function pointers with the
--               laws that a hash table needs of them; HashTable.Strings proves these laws of the
--               defaults, hst_djb2 and strcmp.
--   HashSet     src/interpreter/gc_hashset.c, gchs_*. Buckets of addresses. gchs_add calls itself; its
--               fuel bounds how deeply these calls nest, and 2 is always enough.
--   HashMap     src/interpreter/hashmap.c, hm_*, the compiler's map from names; its djb2 and strcmp are
--               those of HashTable.
--   Gc          src/interpreter/lky_gc.c, gc_*, with md_gc_cycle of src/interpreter/module.c. The heap is
--               a function from addresses to objects, the marks are a second one; a run of the marking
--               has fuel for the depth of gc_mark_object, for which the number of unmarked objects of
--               the pool is enough. Sizes of structs are the parameter Sizes, and whether a lookup of
--               on_destroy_ finds a member is the parameter has_on_destroy. Gc uses HashSet for its pool
--               and HashTable for the members and the modules.
--   Serialize   src/interpreter/serialize.c, srl_*, with exp_send_to_binary_file. Writing is in Serialize,
--               reading in Serialize.Load. A byte is a number below 256, a long its 64 bits. The fuel of
--               reading is the depth of nested code objects, and that depth is enough.
--   Bytecode    src/compiler/bytecode_analyzer.c. Code is its bytes; the fuel of the loop of
--               calculate_max_stack_depth is one more than their number, which is enough.
--   Machine     mach_eval of src/interpreter/lky_machine.c. Machine has the data stack of a frame, Frame the
--               frame and the actions an instruction is composed of, Dispatch, Ops and Eval the
--               instructions and the loop. A value is its address. What an instruction calls in other parts
--               (operators, objects, allocation, modules) is a field of the interface Runtime, whose
--               functions give a value, the error they raise and the state after. An access outside of
--               a frame's memory is the result outside, the exit on an overflow the result stopped. The
--               loop runs for a number of turns that is given, since a program may run on. It uses
--               Bytecode for the instructions' numbers.
--   Operators   src/interpreter/mach_binary_ops.c and mach_unary_ops.c, with lobjb_alloc, lobjb_build_int and
--               lobjb_unary_negative of lkyobj_builtin.c. Operators has the values, the tags and the search
--               for an operator of an object, Operators.Binary each operator. A result is a value that is
--               there, a new object, or a call to be made; Values has what an address points to, and Doubles
--               the arithmetic of double on its bits. Operators.OnStack puts them behind the instructions of
--               Machine.
--   Objects     lobj_set_member and lobj_get_member of src/interpreter/lky_object.c, on the heap of Gc and the
--               tables of HashTable. The fuel of a lookup is the length of the chain of prototypes, which is
--               enough where the chain has no circle.
--   Events      src/interpreter/runtime.c, rt_*. An event is its address; what its thread sets is read through
--               a function for each scan, since a scan reads it once. A wait is given its rounds. Events
--               uses Gc for the roots.
--   ArrayList   src/interpreter/arraylist.c, arr_*. The allocated slots are a list; a write outside of
--               them is the result none. The fuel of a siftdown is the number of items, which is enough.
--   Instructions  the numbers of src/interpreter/instruction_set.h.
--   Compiler    src/compiler/ast_compiler.c. Compiler.Ast is the tree of src/compiler/ast.h. A state is the
--               compiler_wrapper that runs and the ones of the functions around it; a step of the
--               compilation (Emit) gives the next state, or none where the code reads through NULL. The
--               compile_ function of a node is composed of steps (Emit, Function, Shapes) and takes what
--               the node's parts are compiled to; Compile has the recursion over the tree, Tags
--               replace_tags and the code object, and Lines the lines beside the cells. The owner of a name, a pointer to a wrapper, is the
--               number of wrappers around it. It uses HashMap for the slots of locals and Bytecode for the
--               sizes of the stacks; a comparison of a number with a constant that is none is taken to
--               fail.
--   Aquarium    src/interpreter/aquarium.c, aqua_*. The memory is a function from addresses to words. What
--               malloc would return for a new pool is an argument of a request.
--   Regex       src/stdlib/regex.c. Regex has the data and rgxb_build, Regex.Parse the parser, Regex.Run
--               rgx_add_state, rgx_step, rgx_matches, rgx_search and rgx_collect_matches; Regex.Language says
--               which words a pattern has and what an automaton accepts. A character is its code, below
--               128. A state's address is its number; the list that is threaded through dangling pointers
--               is a list of slots. listit and listgen are one more than in the code. The fuel of
--               rgx_add_state is one more than the number of states, which is enough; that of the parser is four
--               for each character and four, which is enough for a pattern without a backslash and an opening
--               bracket; that of rgx_collect_matches is one more than the length of the text.
--   Prelude     Boolean tests on native numbers, and lists measured and indexed by them.
--
-- What holds of the models and not of the C text: malloc and realloc succeed; the counters of type int and
-- long that count nodes, items and constants do not overflow (size_t sums of the collector and the
-- arithmetic of hst_djb2 wrap as written); the effects of the code that an on_destroy_ handler runs are
-- not modelled, only that it is called; the reads of a file and of a buffer give the bytes that were written.
-- Not modelled: printing, hst_free, gchs_free, hm_free, arr_free, rgx_free, rt_clean and aqua_teardown, which
-- only give memory back; the parser; classes and built-in types; the frames that mach_execute and
-- mach_interrupt_exec link, and the variant of the loop with COMPUTED_GOTO; the threads of events; the
-- standard library's methods; src/compiler/mempool.c, src/stdlib/stl_regex.c, src/stdlib/units.c; the growth
-- of the array of results in src/stdlib/regex.c.
pub mod Prelude
pub mod Operators
pub mod Regex
pub mod Objects
pub mod Events
pub mod Aquarium
pub mod Instructions
pub mod Compiler
pub mod HashTable
pub mod HashSet
pub mod Gc
pub mod Bytecode
pub mod ArrayList
pub mod Serialize
pub mod Machine
pub mod HashMap
