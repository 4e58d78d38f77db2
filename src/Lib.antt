-- ===== src/Lib.antt =====
-- A model of the programs of the operating systems laboratory, with proofs.
--
-- Paging (Assignment8): demand paging with four programs that talk over message queues and semaphores.
--   Paging/Table     the page tables of mmu.c: clear_entry and release (frames given back), age (the LRU
--                    counters), find_victim (the largest counter of a valid page), find_free.
--   Paging/Mmu       a round of the loop of mmu.c: handle takes a request and returns the new state, the
--                    messages and the lines of results.txt. The children are on what each branch does: Frames,
--                    Loops and Victim on the loops, Invariant (each frame is held by one valid page or is
--                    free), Steps, Outcomes, Requests and Residency.
--   Paging/Master    the set-up in master.c: drawn sizes and reference strings, tables, allocation of the
--                    frames. rand is a function from the number of the call, a parameter.
--   Paging/System    master.c, sched.c, process.c and mmu.c together: a step is what one program does from
--                    one blocking call to the next; queues are lists, semaphores numbers. Paging/System/*
--                    are on who may run.
--   Paging/Arguments the text of a reference string, from master.c (a loop of sprintf) to process.c (strtok
--                    and atoi). The text must fit ref_str. What sprintf leaves when its target is also
--                    an argument is a parameter, taken to append. RoundTrip and Buffer are on what comes back and
--                    how long the text is.
--   Paging/Results   the text of results.txt as mmu.c writes it, and reorder_output_file of master.c, which
--                    reads it back with fgets and sscanf. Sections is on the file that it leaves.
--
-- Clinic (Assignment6): a doctor's day.
--   Clinic/Queue     event.c: the heap of events in an array. An access outside the array is `none`.
--                    Order, Array, Heap and Operations are on the heap order.
--   Clinic/Session   session.c: the assistant (main), the doctor and the visitors, as steps from one wait to
--                    the next. The state holds the globals of the program under their names, the event
--                    queue, the threads that have not yet been with the doctor, and the lines printed.
--                    Invariant, Admission, Assistant, Visit, Announced, Arrivals, Safety and Progress are on
--                    the states that the threads reach.
--   Clinic/Clock     printTime of session.c: the hour, the minute and am or pm.
--
-- Foothread (Assignment7): the thread library foothread.c.
--   Foothread/Mutex  foothread_mutex_t: a semaphore and its owner; a step is one call of semop, or what a
--                    thread does up to the next one. Exclusion is on who holds it.
--   Foothread/Barrier  foothread_barrier_t in the same way, each thread waiting once. Arrival is on who has
--                    arrived when a thread goes on.
--   Foothread/Exit   foothread_create and foothread_exit: the table, the counters, and the leader and the other
--                    threads from one wait to the next. Join is on whom the leader waits for, Before and
--                    Early on threads that exit before it; Closing, Progress, Moves, Left, Open, Opening and Ending
--                    are on the leader in foothread_exit while a thread is active. exit(0) of a thread ends the
--                    process, since clone is called with CLONE_THREAD.
--
-- Topo (Assignment5): vertices in topological order, by one worker for each vertex.
--   Topo/Graph       the matrix, the semaphores after the set-up and the final check of boss.c.
--   Topo/System      boss.c from the end of the set-up, and worker.c: a step is one call of semop or one
--                    access to the shared memory.
--   Topo/Generator   gengraph.c: the shuffled vertices and the drawn edges. rand and the comparison with
--                    the probability are parameters, functions from the number of the call.
--   Log, Invariant, Moves, Writing, Steps, Setup, Safety, Progress and Termination are on the states that the
--   boss and the workers reach.
--
-- Jobs (Assignment2): the job manager mgr.c.
--   Jobs/Processes   what the kernel does to a job: the signals, as signal(7) has them. An assumption on
--                    code outside the repository: a job handles no signal.
--   Jobs/Manager     the table, the commands and both handlers. An event is a command with its answers, a
--                    signal, the end of a process, or a return from waitpid. `none` is an event that cannot
--                    happen then, or an access through an index that is not set or not in use. Invariant,
--                    Rows, Steps, Handlers, Tables, Running, Quitting, Works and Safety are on its states.
--
-- ProdCons (Assignment4): a producer and n consumers over two cells of shared memory.
--   ProdCons/Plain   prodcons.c, and ProdCons/Locked prodconsV2.c, with a semaphore. A step is one access
--                    to the shared memory or to the semaphore. rand() % n and rand() % 1000 are computed
--                    from what rand returns, which is part of the event.
--
-- DirSync (Assignment9): main.c makes one directory tree like another.
--   DirSync/Tree     trees of regular files and directories in the order of readdir, and what a path shows.
--   DirSync/Passes   rec_rmdir and the two loops of sync_directories. Two parameters stand for the system:
--                    the stat of a new file or directory, and what writing makes of a stat. Reading does not
--                    change the times of the source, as on a file system without atime.
--   First, Second and Mirror are on what the loops leave.
--
-- ProcTree (Assignment1): proctree.c, the tree of cities under a name. A process is a function of its
-- arguments and of the words of treeinfo.txt; an exec is a call of that function. The number of a process is
-- left out of its line.
--   Search and Refinement are on the entry that the program finds in a file of a forest, and on what it prints.
--
-- Cse (Assignment3): CSE.c, a terminal that sends commands and one that executes them. The state has the pipe
-- of commands, the pipe of swap messages with its flag O_NONBLOCK, which all processes share, and the processes
-- of each terminal with what is in their buffers of stdin. A step is a line that is typed, a scanf, a read of
-- the swap pipe with the rest of the round, or the fcntl that ends a swap. Whether execlp finds a program is a
-- parameter.
--   Words, Tokens and Roles are on who commands, Shut and Blocking on the shared flag, Flow and Order on the
--   order of the commands.
--
-- TreeSum (Assignment7): computesum.c, the sum over a tree with a thread for each node. A section under the
-- mutex is one step, and a barrier lets a thread through when as many threads as its count have come: what
-- Foothread/Mutex and Foothread/Barrier are about. What is typed at the leaves is kept in the state.
--   Reading is on the tree that is read, Gates, Conservation and Total on the sums.
--   TreeSum/Generator gentree.c, with the shuffle of Topo/Generator. Parents and Reading are on the tree that
--                    computesum.c reads from its lines.
--
-- Base has the names that all share: Boolean tests, lists with bounds, sums of a weight over a list, and
-- integers (`pos n` and `negsuc n`), and texts as lists of character codes with printf("%d"), atoi and strcmp.
--
-- Bounds and fuel. The loops down and up the heap have as much fuel as the array has events, or one more:
-- the index grows, or shrinks, in each round. The loop that empties the queue at the end of the session
-- has one round for each event and one for the test. The fuel of print_tree is the number of generations,
-- that of its search the number of words of the file. The loop of gentree takes
-- as many rounds as there are nodes at most. A loop that runs out of fuel is `none`. All other
-- loops are recursions on a list, on a tree or on the bound of the loop. Integers are unbounded: the
-- counters, sums and times of these programs stay far from the bounds of int, and no code relies on
-- wrap-around; in computesum.c a sum that an int does not hold is `none`. In Assignment5, T has as many places as the graph has vertices, and a write outside is
-- `none`.
--
-- Not modelled: creation and removal of shared memory, queues, semaphores and threads, fork and exec but for
-- those of Assignments 1 to 3, signals but those of its manager, printing as such, sleeps, the reordering of
-- accesses to memory by a compiler, and the parsing of files and arguments but for those named above. A
-- condition variable is a wait for its condition. Calls of semget, semctl and semop are taken to succeed. The generator arrival.c and
-- the demonstrations under Material have no model here.
pub mod Base
pub mod Clinic
pub mod Cse
pub mod DirSync
pub mod Foothread
pub mod Jobs
pub mod Paging
pub mod ProcTree
pub mod ProdCons
pub mod Topo
pub mod TreeSum
