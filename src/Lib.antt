-- ===== src/Lib.antt =====
-- any-vm is a virtual machine for actors: light-weight processes with a private stack, heap and
-- mailbox, which run byte code and native functions and change one another only by messages. This
-- library models its core and states what makes it correct.
--
-- The parts, and how they interact. The interpreter (src/private/dispatcher.c) runs the byte code
-- of a prototype in the frame that `any_call` (src/private/actor.c) has made, and works on the
-- operand stack by the inline functions of src/inc/any/actor.h. Errors leave by `any_throw`, a
-- longjmp to the enclosing `any_try`. Messages go to the mailbox of another actor, found by its
-- pid (src/inc/any/scheduler.h). Stack and mailbox are growable arrays (src/private/stack.c).
--
-- The files:
-- - Base: shared tests on numbers, lists, integers and bits, with the names of the libraries.
-- - Errno: `aerror_t`. Value: `avalue_t` and the objects of a heap.
-- - Growth: the doubling loop of the growable arrays. Stack: `astack_init`, `astack_reserve`.
-- - Pid: `apid_from`, `apid_idx`, `apid_gen`. Bytecode: the words of the instructions.
-- - Text: `ahash_and_length`, `agc_string_compare`. Word: the arithmetic of `aint_t`.
-- - Machine: the state of an actor and how a function on it ends. Safe: its invariant, and what
--   it means for a function to be safe.
-- - Operand: `aactor_push`, `any_pop`, `any_insert`, `any_check_index` and the rest of actor.h,
--   `any_error`. Calls: `any_call`, `any_try`, `any_protected_call`.
-- - Mailbox: `any_mbox_send`, `any_mbox_recv`, `any_mbox_remove`, `any_mbox_rewind`.
-- - Scheduler: the process table and the lists of src/private/scheduler.c; Scheduler/Run the
--   operations on the lists, Scheduler/Timers and Scheduler/Cleanup what a run wakes and drops,
--   Scheduler/Steps the state machine.
-- - Dispatcher: `actor_dispatch` and `any_equals`. Sample: a small machine for the tests.
-- - Growable: what the growable objects of the standard library share, an object with a capacity,
--   a size and a fixed buffer. StdArray, StdTable, StdBuffer: the libraries of
--   src/private/std_array.c, std_table.c, std_buffer.c and std_buffer_bits.c on it; StdTable/Dict
--   is the dictionary that a table stands for. StdTuple: src/private/std_tuple.c. StdString: the
--   library functions of src/private/std_string.c.
-- - Collector: src/private/gc.c. Collector/Heap says what a valid heap is and what a copy of an
--   object, Collector/Reach what the roots reach; Collector/Invariant holds at every step, and
--   Collector/Copy, Advance, Storage and Scan keep it; Collector/Collect and After are about a
--   whole collection. Collector/Space and Room are about the sizes in bytes.
-- - StringTable: src/private/string_table.c, a hash table with linear probing.
--
-- How the state corresponds. An `Actor` is an `aactor_t`: its stack, mailbox and reading
-- position, the chain of frames as the running frame and the list of its callers, and its heap as
-- a list of objects, of which a value holds the index. What it reaches of the scheduler is part
-- of it: its pid, the mailbox and heap of every live actor by pid, and the pids that were told of
-- a message. A function is a map from an actor to a result: a value and the next state, a throw
-- with its state, a fault (undefined behaviour, a failed assertion or an endless loop), the
-- endless recursion of `any_error` when memory is exhausted, or the end of the fuel. Assertions
-- are part of the model.
--
-- The collector has a heap of its own, `Cell`s with the fixed buffers as objects and with an
-- index that a collection changes; the other modules have a heap in which an array, a buffer or a
-- table holds its fixed buffer, and see a collection as no change.
--
-- Parameters. The allocator, whether it moves an array (`moves`), the room on a heap (`heap_ok`)
-- and whether the heap must grow for it (`heap_grows`), the bytes of memory that no one has
-- written, the text of `vsnprintf`, native functions, operations on doubles and what a suspension
-- in the scheduler does are arguments (`Env`).
--
-- Bounds and fuel. The growth loop has as much fuel as the size it is to reach, which is enough
-- for every capacity above 0; from 0 the loop of the source never ends. A search of the string
-- table has as much fuel as there are slots, and a collection one more than there are objects;
-- both are proved to be enough on valid data. The fuel of the interpreter bounds instructions and
-- the depth of calls; the program alone decides whether it ends.
-- The loops that double a capacity fault where it overflows. Integers are of any size where the
-- code only compares or adds positions, and wrap at 64 bits in the arithmetic of the byte code,
-- at 32 bits in hashes and pids. Bit fields are laid out from the lowest bit, as the usual
-- compilers do.
--
-- Not modelled: the links of the scheduler's lists and its task switches, the bytes of the
-- collector's spaces, the loader, assembler and compiler, the debugger, tasks, and the
-- third-party parts (wby, jsmn). The properties of tables as dictionaries leave out keys that are
-- reals, since the equality of the code on them is not transitive. The hooks `on_panic`,
-- `on_throw` and `on_step` are left out: they are taken to do nothing.
pub mod Base
pub mod Pid
pub mod Errno
pub mod Growth
pub mod Growable
pub mod Value
pub mod Stack
pub mod Machine
pub mod Safe
pub mod Operand
pub mod Calls
pub mod Mailbox
pub mod Text
pub mod Word
pub mod Dispatcher
pub mod Bytecode
pub mod Sample
pub mod Scheduler
pub mod Collector
pub mod StdTuple
pub mod StdBuffer
pub mod StdArray
pub mod StdTable
pub mod StringTable
pub mod StdString
