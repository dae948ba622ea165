-- ===== src/Lib.antt =====
-- Programs of a collection of notes, each in a directory of its own; they share no code, so every
-- component below stands for itself. Values of type `int` are the integers ℤ of Common/Int: the
-- programs only compare them. Counters and sizes are natural numbers, with the wrap-around of a
-- machine word written out where the code can reach it.
--
-- Common       names of the libraries, Boolean tests on numbers, lists and integers, and the chains of
--              results that may be missing.
--
-- Trees        2022-06-25-C++-notes/yandex_tasks/trees: eight programs with one class `BinaryTree`. A
--              program reads keys up to a 0 (`read_tree`), builds a search tree with `insert`, and
--              prints something of it: Output (traverse.cpp, leaf_output.cpp, parents_output.cpp,
--              one_child_parents_output.cpp), Depth (tree_height.cpp, avl.cpp), Second
--              (second_tree_maximum.cpp) and Frequency (frequency.cpp). `..._main` is `main` as a
--              function from the keys on the standard input to what is printed; `none` stands for an
--              input that ends before the 0. Order holds search trees and `insert`.
--
-- LinkedList   2022-02-16-doubly-linked-list/list.cpp. Nodes is the memory of nodes, with loads and
--              stores that fault at a pointer to no node, and the std::allocator as a parameter;
--              Chains and Owned say what a list owns there (`IsList`). LinkedList holds the object and
--              its methods; Push, Pop, Clear, Erase, Insert, Selection and Sort, Assign, Access
--              (`compare`, `front`, `back`) and Move prove what they do. A theorem `Returns P r` says
--              that the run `r` ends without a fault and with fuel left. A loop gets one round for
--              each node of the list, which is enough: the loop of `clear` tests the length, the loops
--              of `sort` and of `assign` walk over the list once for each round. Not modelled: the
--              iterator's `operator-` and postfix operators, and the copy assignment as one call (it is
--              `assign` of the values of the other list).
--
-- LruCache     2021-11-29-LRU-cache/lru_cache.cpp. A node of the std::list has a number that stands for
--              its identity; the std::unordered_map is a function from pages to such numbers. Nodes
--              holds the list, Order the abstract cache (pages in the order of their last use), Refer,
--              Sequence and Get the refinement.
--
-- BucketHashmap 2022-04-04-bucket-hashmap/main.cpp. The hash is a parameter, the table a list of
--              buckets. Lookup holds what a bucket holds, Find `Find`, Update `Insert` and `Delete` at
--              a fixed size, Resize what `Rehash` does.
--
-- Json         2022-06-25-C++-notes/formatjson/json_formatter.cpp: the state machine of `format`. Kept is
--              about the characters of the data in the output, Quoted about the inside of strings,
--              At and Depth about the indentation.
--
-- SortedList   2022-05-16-sorted-list-push/list.cpp. A node has one owner, so the chain from a pointer on
--              is the list of its values. Push holds both kinds of push.
--
-- Parentheses  2022-02-06-leetcode-solutions/valid-parentheses.cpp, with the grammar of balanced texts in
--              Grammar.
--
-- Sha2         2022-03-19-SHA2/sha224_256.hpp. Rounds is the compression of a block, Sha2 the context with
--              `init`, `update` and `final`. Stream relates the context to the bytes that it was given,
--              Padding and Blocks relate `final` to the padding of the standard, Roots is about the numbers
--              that the code starts from and its round constants, Digest about the
--              string. The loops of the compression are over lists of the length that the code has; no fuel is
--              needed. `update` counts its bytes in 32 bits, so the theorems are about texts of
--              less than 2 ^ 32 bytes. The functions on files are not modelled.
--
-- Sha512       2022-03-19-SHA2/sha384_512.hpp, the same for words of 64 bits and blocks of 128 bytes. The
--              lists behind it and the string of a byte are those of Sha2.
--
-- TaskQueue    2022-06-25-C++-notes/Sandbox/task_queue.hpp. The state holds the deque, the workers and
--              where each stands, the mutex, where the controlling thread stands in `stop`, and the
--              calls of pushes in progress; `Step` is one step of one thread, `Reach` adds the spurious
--              wakeups. Every critical section of a worker is cut at the points where another thread
--              can come in. Invariant says what holds in every state, Safety and Drain what follows
--              of the tasks, During is about the time in which `stop` has not returned, Shutdown
--              about its end, Wakeup about a notification that is missed, Mutex about the two
--              members that push. One thread controls the queue, any number push. `Step` has the
--              steps of `push_future_task`; `Run` adds `push_void_task`, whose second unlock is undefined.
--              What is said of a drain, of `stop` and of a wakeup is about `Step`. Not modelled: the
--              texts of the handler of exceptions, and the values that futures carry.
--
-- Parser       2021-12-25-associative-operators-parser/parser.cpp. Input is what the parser sees from an
--              index on, Reads the texts of sums of products and what the parser makes of them, Sound
--              what a run has read. The fuel of `parser` is twice the length of the text and three,
--              and a run uses less.
--
-- Postfix      2021-11-11-postfix-exprs-parser/parser.cpp. Steps and Rounds follow the parser through the
--              input, Forms holds the infix and the postfix form and a machine with a stack, Output
--              and Total what is written. The fuel is any number above that of the characters.
--
-- Cfg          2022-03-17-SSA-form-implementation/main.cpp, the control-flow graph: `AddLink` (Links), the
--              walks `PredOrderDFS`, `PostOrderDFS` and `DomDFS` (Walks, Orders, PredOrder), the field
--              `Dominator` (Dominators, Immediate) and the dominance frontier (Frontier): Dominance is about the
--              order of the blocks, PostOrder about the second order, Rows about the loops that fill the
--              sets, DominanceFrontier and Base about what is in them, Closure about `GetDominanceFrontierForSubset`. The
--              three walks are one function by what it does before and behind the loop. A walk has
--              the number of the blocks as fuel, which is enough since each call below another marks a
--              block more; the loop of `GetDominanceFrontierForSubset` adds a block in each round.
--              Members that are blocks of the graph is what the code's `at` asks of a subset.
--
-- GraphBuilder The same file, `CFGBuilder`: the graph of a syntax tree. Grows is about the paths that
--              the walk adds, Built about the numbers and the links of the blocks, Split about the
--              blocks of an `if`, Traversal joins
--              them with the dominators, Phi about the phi nodes. The loop of the
--              frontier has one more than the number of the blocks as fuel.
--
-- Ssa          The same file, `SSABuilder`: the renaming of one variable over the tree of the dominators,
--              which is a parameter. Stacks is about the loops over the statements, Rename about the
--              walk. The fuel is a number of levels that the tree does not pass. A statement holds the
--              symbols that `VariableSearchVisitor` finds.
--
-- The tests of each part run its operations on small inputs.
--
-- Not modelled: the other programs of the repository, the reading of numbers from the standard input
-- and the printing itself, the files that are read, and the release of memory by the trees' destructor.
pub mod Common
pub mod Trees
pub mod LinkedList
pub mod LruCache
pub mod BucketHashmap
pub mod Json
pub mod SortedList
pub mod Parentheses
pub mod Sha2
pub mod Sha512
pub mod TaskQueue
pub mod Parser
pub mod Postfix
pub mod Cfg
pub mod Ssa
pub mod GraphBuilder
