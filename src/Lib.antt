-- ===== src/Lib.antt =====
-- PRoot, the terminal's user-space chroot (features/terminal/proot/src/main/cpp), as a library of
-- functions and theorems. PRoot traces a process, rewrites the system calls that it makes and the
-- results that it gets, and so shows it another root directory, another heap, System V IPC and more.
--
-- Paths below are relative to features/terminal/proot/src/main/cpp.
--
-- Common and its children: shared names, C integers, lists indexed by native numbers, bit fields,
--   error numbers (`fail e` is the `int` -e; `Result` is a status with a value).
-- Regs: the registers of a tracee that are read and written (tracee/reg.h), and word arithmetic.
-- Heap: syscall/heap.c. `translate_brk_enter` and `translate_brk_exit` are the functions of those names;
--   the static variable `heap_offset` is a field of the state. Heap.Protocol joins the two halves round
--   an arbitrary answer of the kernel.
-- SysVIpc: extension/sysvipc. The state is that of sysvipc_internal.h. SysVIpc.Ids is the macro
--   LOOKUP_IPC_OBJECT, the encoding of identifiers and the search that semget and msgget begin with;
--   SysVIpc.Wait is sysvipc_wake_tracee of sysvipc.c; SysVIpc.Sem is sysvipc_sem.c (semget, semop, in
--   Sem.Ctl semctl); SysVIpc.Msg is sysvipc_msg.c (msgget, msgsnd, in Msg.Receive msgrcv and its
--   second try, in Msg.Ctl msgctl); SysVIpc.Events has the wait states of sysvipc.c, with the events of a
--   tracee as a step relation in Events.Steps; Placed, Rest, Turn, Kept and Total are about one event, Invariant about
--   sequences of them. The handlers take the words of the registers as arguments.
--
-- Path: the string functions of path/path.c (join_paths, chop_finality, compare_paths,
--   substitute_path_prefix) and of path/canon.c (pop_component, next_component), on lists of bytes.
--   Path.Names says what a canonical path is; the modules beside it say what each function does to the
--   names of such paths, and Path.Nesting has the laws of the order that compare_paths gives.
-- Binding: path/binding.c. A list of bindings is a list of records, each with its address, and a
--   position in it stands for a pointer. Binding.Order and Binding.Position are about the insertion,
--   Binding.Insort is its theorem, Binding.Deepest is about the search and the substitution.
-- Chain: syscall/chain.c. Chain.Queue is the registration, Chain.Drain the working off of the queue
--   between arbitrary changes of the registers.
-- Auxv: execve/auxv.c on a memory of words of the size that the tracee has, with reading and writing in
--   Auxv.Roundtrip and the search of the stack in Auxv.Address.
-- Detranslate: detranslate_path of path/path.c, from a path of the host to what the guest sees; Detranslate.Root
--   has its round trip with substitute_binding.
-- Host: substitute_binding_stat of path/canon.c, with what it asks the host as a record of functions.
-- Proc: readlink_proc and readlink_proc2 of path/proc.c, the links of /proc that are made up.
-- Canon: canonicalize of path/canon.c. Canon.Fits, Canon.Rounds and Canon.Ends are about its end, Canon.Lexical,
--   Canon.Spelling, Canon.Loop and Canon.Resolve about paths without links.
-- FakeId0: the user and group ids of extension/fake_id0/fake_id0.c. FakeId0.Exit has the handlers that read and
--   write them; FakeId0.Steps and FakeId0.Confined are about what a tracee without privilege can do,
--   FakeId0.Drop about giving privilege up, FakeId0.Initial about the numbers of the command line.
-- Shebang: execve/shebang.c, with the bytes of a file for its reads. Shebang.Line is about one line, on the loops in
--   Shebang.Words; Shebang.Expand is about scripts that name scripts.
-- SysVIpc.Shm: the segments and mappings of extension/sysvipc/sysvipc_shm.c, one list of mappings for the two
--   lists that each is linked into. SysVIpc.Shm.Attach has shmat(2) and its chain; Valid, Reach and Detach
--   are about one operation, Steps and Removal about sequences of them.
-- Translate: translate_path of path/path.c, which joins Path, Canon, Detranslate and Binding, with the extensions
--   as two functions of the tracee. Translate.Ends is its return, Translate.Back the way there and back.
-- Socket: syscall/socket.c, with the translation of paths as two functions. Socket.Bounds is about what is
--   written at the end of a call, Socket.Paths about what the kernel reads at its start.
-- PortSwitch: extension/port_switch/port_switch.c, the callback as a function from a call to the writes that it
--   makes; PortSwitch.Targets says what each call should write and where, PortSwitch.Moves is
--   about what it does write.
-- HiddenFiles: extension/hidden_files/hidden_files.c, the filter that getdents goes through, on bytes.
--
-- A word is a number below 2 ^ 64 and wraps where the source wraps; an `int` is an integer read off the
-- low 32 bits of a word. Reads and writes of a tracee's memory, the kernel's answers and the time are
-- arguments of the functions. Loops are recursions on the lists that they walk; the
-- loops of Auxv and HiddenFiles that walk raw memory have fuel, one round more than there are strings,
-- vectors or entries, which their theorems show to be enough, and canonicalize has PATH_MAX rounds for
-- each level of links and one for each byte of the path. A failed assertion is `none`; in
-- canonicalize and translate_path, whose `none` is that the fuel does not last, it is `some none`; and shmat_chain
-- goes on past its assertions, which only makes for more runs.
--
-- Not modelled: talloc (a copy of another project's library), the ptrace and seccomp plumbing, the ELF
-- loader, the dispatch over system call numbers (syscall/enter.c, syscall/exit.c), the extensions kompat,
-- link2symlink, mountinfo, ashmem_memfd and fix_symlink_size, the helper process of the shared memory, the
-- parts of path/ that ask the host's file system, and the messages that the code prints.
pub mod Common
pub mod Regs
pub mod Heap
pub mod SysVIpc
pub mod Translate
pub mod Socket
pub mod PortSwitch
pub mod Path
pub mod Binding
pub mod Auxv
pub mod Chain
pub mod HiddenFiles
pub mod Detranslate
pub mod Proc
pub mod Host
pub mod Canon
pub mod FakeId0
pub mod Shebang
