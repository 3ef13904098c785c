-- ===== src/Lib.antt =====
-- Homework programs around the Linux kernel: device drivers, system calls and shells. The library
-- models the parts with state of their own and proves what they keep.
--
-- Base holds what the parts share: the tests on natural numbers, and lists over them with their
-- laws, and who holds a semaphore.
--
-- Pipe (7/pipe/scull_pipe.c) is the pipe device. Pipe.antt has the device record, `spacefree`, and
-- the bodies of `scull_p_open`, `scull_p_release`, `scull_p_read`, `scull_p_write` and
-- `scull_p_poll` that run with the semaphore held; pointers are offsets from `buffer`, an access
-- outside of it is `none`. Pipe/Threads.antt runs any number of processes through `scull_p_read`,
-- `scull_getwritespace` and `scull_p_write`, one step from each point at which another process can
-- come between to the next: the semaphore, the wait queues and the wake-ups. `copy_to_user`,
-- `copy_from_user`, pending signals and the order of the steps are arbitrary. The steps start when
-- the opens are done; the buffer size is the module parameter, positive and below 2^31. Contents is
-- the queue that the buffer stands for, Valid the invariant. Pipe/Module.antt loads and
-- unloads the module. Not modelled: the set-up of the devices' entries, `fasync` and SIGIO, which
-- only call the kernel.
--
-- Event (6/kernel/modified/myevent.c) is the system calls on events. The nodes live in an explicit
-- memory, in which an access at NULL or at a freed address is a fault; `kmalloc` is a parameter,
-- the address that it returns. Chain describes a well-formed list, Find the search, whose rounds
-- are bounded by a fuel above the length of the list, Calls, Open, Close and Dangling the calls,
-- Semaphore sequences of them. A call runs up to `schedule` without another one in between.
--
-- Snippt (6/kernel/snippt2.c) is the calls as they were before, over the same memory, search and
-- unlinking: Close has what closing leaves, Session sequences of waits and signals.
--
-- First (6/kernel/myevent.c) is the first calls, without a value, over the same memory; Lost has
-- sequences of waits and signals.
--
-- Scull (7/main.c, structures of 7/scull.h) is the bare device: a list of items, each with an
-- array of pointers to quanta. The item list is a list, a quantum its size, NULL is `none`; the
-- fields `data` are named `items` and `array`. Scull.antt has `scull_trim`, `scull_open` and
-- `scull_follow`, Scull/Access.antt `scull_read`, `scull_write` and `scull_llseek`, the two former
-- with the semaphore held; where `(long) *f_pos` or a product of sizes leaves its 32 bits, they
-- end in `beyond` and are not followed. A list of answers says which calls of `kmalloc` succeed,
-- and `moved` how many bytes a copy moves. The copies of the source go to `dev->data + *f_pos`:
-- such a run ends in `stray`, and what the kernel does from there on is not modelled.
-- Scull/Module.antt loads and unloads the module. Scull/Threads.antt runs any number of processes
-- through the calls, from the look at the device's sizes to the semaphore and behind it. Place,
-- Follow, Valid, Sound, Overwrite and Seek hold the other theorems. Not modelled: the set-up of
-- the devices' entries.
--
-- Shell (2/parseline.c, the user code of 2/parseline.l) is the hand-written part of the shell's
-- parser. A token is the list of its character codes. Shell.antt has `do_list_cmd`, `do_pipe_cmd`
-- and `scan_redirect`: each loop over indices is a recursion over the tokens left, with the part
-- since the last separator; the result of the first two is the calls of `do_simple_cmd` in their
-- order. Shell/Tokens.antt has `add_token` and `expand`, with writes behind their arrays as
-- results of their own. The size of a pointer, the files that can be opened and the printed
-- parameters are arguments. Shell/Input.antt has the loop of `main` of 2/mysh.c, which joins
-- continued lines, with its theorem. Lists, Redirect and Expand hold the other theorems.
-- Shell/Scanner.antt has the tables that flex made, the matching loop over them, whose inner loop
-- runs on a fuel of the number of states, and `yylex`, on a fuel above the number of matches; its
-- child Cut compares it with a cut by characters. Not modelled: flex's management of several
-- buffers. Shell/Exec.antt has `do_simple_cmd`, which `do_pipe_cmd` calls for each command, with
-- the built-in commands: a process has a table of descriptors, and a child is what it executes and
-- with which table. Which descriptor is free is a parameter. Shell/Exec/Tables.antt follows the
-- pipes through the commands of a pipeline. Shell/Main.antt is the whole shell, from the lines
-- typed to the commands that run: each line is scanned, cut and run before the next one is read.
-- Shell/Start.antt has the parameters, `init` and the prompt, Shell/Exec/Leaks.antt a built-in
-- command in front of a pipe.
--
-- Text holds what the programs around /proc read and print with: C strings as lists of character
-- codes, `fgets`, `strtok`, `atol` and `atoi`, and integers; Lines, Numbers and Print have their
-- laws.
--
-- Observer (1/observer.c) shows files of /proc. Observer.antt has parts A and B and `main`,
-- Observer/Uptime.antt `sampleTime`, Observer/Status.antt part C, Observer/Load.antt
-- `sampleLoadAvg` and the loop of part D, in steps of fuel, of which the duration and one are
-- enough. Clock, Lines and Ends hold the theorems. Observer/First.antt has the choice of a part,
-- `sampleTime` and the loop of part D of the first version (1/observer.v1.c), whose other parts
-- have the same text, and Observer/Versions.antt compares them. Not modelled: `ctime` and
-- `localtime`.
--
-- Chkey (1/chkey.c) reads, reverses and writes two switches of the kernel. Limit (1/limit_proc.c)
-- is the first lines of a program that was not finished.
--
-- Timer (3/mytimer.c) is three processes with three timers each, whose signals come in any order.
-- Monitor (3/inter_moniter.c) counts interrupts: its handlers run in steps, so that they can come
-- between each other, also while one reads its file. Monitor/Debug.antt has what it copies
-- to files.
--
-- Clock (3/clock.c, 3/mygettimeofday.c) is two handlers that count the signals of a timer,
-- the second one with the signals that it sends to its parent.
--
-- Myproc (4/m1/pm1.c, 4/m1/m11/pm11.c, 4/m2/pm2.c, 4/m3/pm3.c) is modules with a file below /proc.
-- Myproc.antt has their loading and removal and `proc_write`, Myproc/Parents.antt the reading of
-- pm2.c, whose loop runs on fuel, of which the depth of the current task and one are enough, and
-- Myproc/Loops.antt pm3.c, Myproc/Jiffies.antt that of pm1.c and pm11.c. The kernel's functions are
-- parameters.
--
-- Syscall (5/syscall.c) is a module that puts a system call into the kernel's table, in a memory of
-- words.
--
-- Added (5/kernel/sys.c, fault.c, unistd_32.h, syscall_table_32.S; 5/user/test_syscall.c) is the
-- repository's own lines in files of the kernel: two system calls, the count of page faults, and
-- the calls' numbers. Of `do_page_fault` it has the statement that counts.
--
-- Fibnocci (3/fibnocci.c) is the loop of `fib`; the loop is a recursion over the rounds left.
--
-- Not modelled: test programs, the other shells, and copies of the kernel's and of textbooks' code.
pub mod Added
pub mod Base
pub mod Chkey
pub mod Clock
pub mod Event
pub mod Fibnocci
pub mod First
pub mod Limit
pub mod Monitor
pub mod Myproc
pub mod Observer
pub mod Pipe
pub mod Scull
pub mod Shell
pub mod Snippt
pub mod Syscall
pub mod Text
pub mod Timer
