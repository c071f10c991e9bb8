-- ===== src/Lib.antt =====
-- Models of the C programs of this repository that have logic of their own, with the theorems that
-- make them correct.
--
-- The parts, their files here, and the code (paths from the root of the repository):
--
-- Cpu: the emulators of the course on computer architecture.
--   Cpu/Single.antt       C++/ComputerArchitecture/Mission4/Mission4-2.c, one processor. Its globals
--                         are the record Machine; instruction_fetch, execution and the functions
--                         of the instructions keep their names; cycle is one round of the loop of
--                         main, and main_loop that loop.
--   Cpu/Dual.antt         C++/ComputerArchitecture/Mission4/Mission4-3.c, two processors that share
--                         the memory. The functions whose names end in 1 and 2 are those of the
--                         first and of the second.
--   Cpu/Direct.antt       C++/ComputerArchitecture/Mission4/Mission4-1.c, the emulator that reads its
--                         instructions from standard input.
--   Cpu/Isa.antt          the instruction table at the top of Mission4-2.c, as an abstract machine.
--   Cpu/Input.antt        the text that scanf and getchar read in Mission4-3.c. In Mission4-2.c and
--                         Mission4-1.c only scanf reads, so input is the list of the numbers there.
--   Under Cpu/Single and Cpu/Dual stand the proofs: Refine, Mirror, Alike, Sequential.
-- Stack: C++/Datastruct/Stack/ListBaseStack. Stack.antt has the linked stack as the list of its
--   data, which the clients use, and Stack/Memory.antt its nodes in memory.
-- Expression: C++/Datastruct/Stack/ExpressionStack, a calculator over the stack.
--   Expression/Convert.antt   InfixToPostfix.c
--   Expression/Evaluate.antt  PostCalculator.c and infixCalculator.c
--   Expression/Syntax.antt    what the strings mean: a grammar, its two notations and its values.
-- Sorting: C++/Datastruct/Sorting. Exchange is BubbleSort.c, Selection is SelectionSort.c and
--   Insertion is insertSort.c; Compare is the comparison they are handed. Merge and its children
--   are MergeSort.c, and Quick is QuickSort.c. Array, Between and Progress hold the lemmas on arrays as lists.
-- Heap: C++/Datastruct/Heap/UsefulHeap, a heap in an array, and Heap/Sort.antt is
--   C++/Datastruct/Sorting/HeapSort/HeapSort.c, its client.
-- Searching: C++/Datastruct/BinarySearch/Binary_Search.c; Searching/Bisect.antt has the proofs.
-- Recursion: C++/Datastruct/Recursion/hanoi_tower.c; Recursion/Legal.antt has the puzzle's rules.
-- Trees: nodes in a store, C++/Datastruct/Searching/BinarySearchingTree/BinaryTree3.c, and what is
--   built on them. Shape has the trees that a store holds.
--   Trees/Bst.antt            BinarySearchTree2.c beside it; Trees/Bst/Remove.antt is its BSTRemove.
--   Trees/Avl.antt            C++/Datastruct/Searching/AVLTree: AVLRebalance.c, BinarySearchTree3.c
--   Trees/ExpTree.antt        C++/Datastruct/Tree/ExpressionTree/ExpressionTree.c, over the stack
--                             and the notation of Expression/Syntax.antt
-- Linked: C++/Datastruct/Graph/DLinkedList.c, a linked list with a cursor.
-- Deadlock: aisys/deadlock_hunters.c, two threads that lock two mutexes in opposite orders, the
--   wait-for graph and the monitor. Deadlock.antt has the graph and detect_cycle; Deadlock/System the
--   rest: a thread stands in lock_mutex before its next access to shared memory, what it does under
--   the lock of the graph is one step, and a schedule is a list of who moves next (a thread, the
--   monitor, main, or the clock). The depth of dfs_cycle is at most the number of threads.
-- Jobs: aisys/thread/mini_shell_game_queue.c, a bounded queue of attacks between a shell and three
--   workers. Jobs.antt has the queue in memory, Jobs/Chain the list it stands for, Jobs/System the
--   threads: a critical section up to a wait is one step, a schedule says who moves, which waiting
--   worker a signal wakes, which lock times out, and which wait ends unasked. `double` is a
--   parameter: a record of the operations that the program uses. The shell's commands are the list of
--   attacks that it will add.
-- Airtel: C++/Algorithm/Assignment/Assignment5.c, the cheapest journey, by recursion and by a table.
-- Common: numbers, lists, memory (Common/Store.antt), and the result of a run.
--
-- A run (Common/Run.antt) returns, exits with a status, faults, or is out of fuel. A fault is
-- undefined behaviour of C: an index outside of an array, a null pointer, a signed overflow, a
-- division by 0. An int is an integer of which checked operations test the range; a char is
-- reduced by to_char. What a buffer holds before it is written is a parameter.
--
-- Loops that count are recursions on the rounds left. Loops that do not are recursions on fuel:
-- the conversion and the evaluation get fuel from the length of their text, HInsert gets its
-- start index plus one, Bsearch and the merge of two areas the size of the range, MergeSort a level
-- of calls for each element, a walk in a tree or a list the number of its nodes and one, and the
-- recursion for the cheapest journey the number of stops, dfs_cycle the number of threads, and the
-- end of the shell game thirty steps of its workers; the theorems state results that are not
-- out of fuel. main_loop of an emulator takes any number of rounds, since its program need not end.
-- QuickSort, which need not end either, is stated for any fuel. Within HDelete the ten rounds are
-- those of the source.
--
-- What malloc gives is a parameter too: an address that nothing in the store uses, and the bytes
-- there. A null pointer, or an address with nothing at it, faults when it is read.
--
-- Not modelled: malloc that fails, the text that is printed (its items are kept), and the
-- programs whose work is calls of the operating system, of sockets or of files; of the data
-- structures the other linked lists and the interpolation search. Of the shell game the reading of
-- commands, signals and external commands are left out.
pub mod Common
pub mod Cpu
pub mod Stack
pub mod Expression
pub mod Sorting
pub mod Heap
pub mod Searching
pub mod Recursion
pub mod Trees
pub mod Linked
pub mod Airtel
pub mod Deadlock
pub mod Jobs
