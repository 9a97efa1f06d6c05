-- ===== src/Lib.antt =====
-- A verification library for the C programs and kernel modules of this repository: notes and small
-- programs on Linux, each of which stands for itself. Each part below is a module, named after its
-- program.
--
-- The parts, with the files of the repository that they model:
--
-- * Fileview - src/kernel/linux_memory/mm_addr/fileview.c, a viewer for files and devices.
--   Fileview.Keys has the key codes and the switch on them, Fileview.Fill the loop that fills
--   `buffer[]`, Fileview.Line the drawing of `outline`, Fileview.Seek the loop over `inbuf` and
--   `strtoull`, Fileview.Navigate the state of `main`, one round (`round`) and the loop (`play`).
--   A round draws by Fill and Line, and its command `seek` runs Seek on the keys to come.
--   Fileview.Start is `main` up to the loop: the file and the legend.
-- * Dram - src/kernel/linux_memory/mm_addr/dram.c, the device that fileview.c shows: `dram_init`,
--   `my_read`, `my_llseek`. Dram.View puts it in the place of Fileview's file.
-- * SysReg - src/kernel/linux_memory/mm_addr/sys_reg.c, a file with the registers of the
--   processor, and mem_map.c (SysReg.MemMap), which shows it: its `read` is `my_get_info`.
-- * Zpage - src/kernel/linux_memory/user_task_page/zpage.c: Zpage.Walk has `walk_task_page`,
--   Zpage.Buffer the writes to `mmap_data`, Zpage.Ioctl the ioctls and `my_mmap`, Zpage.Module
--   `my_init` and `my_exit`. Zpage.User is the program user.c and Zpage.UserCmd the program
--   user_cmd.c, both over `my_ioctl`.
-- * ProcMem - src/kernel/linux_memory/user_task_page/proc_mem.c: what it takes and gives back.
-- * Procfs - src/kernel/procfs/zproc.c (Procfs.Zproc, Procfs.Buddy),
--   src/linux/affinity/cpu_affinity.c (Procfs.Affinity) and
--   src/kernel/linux_memory/node_zone_list/node_zone_list.c (Procfs.Nodes). All writes to them are
--   `write_number`; Procfs.Files has what each makes and removes under /proc, and Procfs.Sessions
--   the calls on the files of zproc.c in turn.
-- * Chrdev - src/device_driver/driver3/ofcd.c and driver2/ofcd.c (Chrdev.Ofcd),
--   src/driver/simple_register_chrdev/hello_chrdev.c (Chrdev.Hello),
--   src/linux/linux-inside/ztest.c (Chrdev.Ztest) and ztest_usr.c (Chrdev.ZtestUser), the program
--   with three threads over its `my_ioctl`.
-- * Pmon - src/linux/proc_connector/pmon.c: the connection, the loop over events, the exit, and
--   the message that subscribes (Pmon.Message).
-- * Spthread - src/linux/pthread/simple_pthread/spthread.c: the array of threads and the keys;
--   Spthread.Threads has the threads beside the main thread.
-- * KernelList - src/kernel/data_struct/list/zlist.c and zlist2.c, and
--   src/kernel/default_variable/this_module/zmodule.c, over the kernel's lists as records of
--   operations and laws; src/linux/struct/container_of/container_of.c.
-- * Cgroup - src/python/cgroup/cpu_use.c and memory_use.c.
-- * Kvm - src/virtual/kvm/kvm_run_test1.c (Kvm.Test1) and kvm_run_test2.c (Kvm.Test2): the setting
--   up, and the loop over `KVM_RUN`; kvm_api_test.c (Kvm.ApiTest).
-- * Eventfd - src/linux/eventfd/foo.c: the thread that reads event descriptors, and what `main`
--   takes and gives back.
-- * EfdKernel - src/linux/eventfd/efd_lkm.c, a module that signals an eventfd, and efd_us.c, the
--   program that waits for it.
-- * WorkQueue - src/kernel/workqueue/work_queue_a/work_queue_a.c and work_queue_b/work_queue_b.c:
--   the steps of the kernel's thread, beside those of the module's removal.
-- * Mmap - src/linux/mmap/mmap_lkm.c, a module whose memory is mapped, and mmap_user.c;
--   src/linux/memory/mmap/mmap_test.c (Mmap.Anonymous).
-- * Numa - src/linux/numa/numaget.c and numaset.c: the masks that they hand to the kernel.
-- * Tcp - src/linux/socket/tcp/tcp_server.c (Tcp.Server, a server over `epoll`) and tcp_client.c
--   (Tcp.Client); src/linux/socket/tcp_speed/ (Tcp.Speed), whose server counts what its client
--   sends. Tcp.Served puts tcp_client.c at the other end of a connection of tcp_server.c.
-- * Udp - src/linux/socket/udp/udp_client.c and udp_server.c, and
--   src/kernel/linux_network/udp_sock/zudp.c (Udp.Table).
-- * Vsock - src/linux/socket/vsock/vsock_server.c (Vsock.Server) and vsock_client.c
--   (Vsock.Client): the port, the sockets, and the totals received and sent; Vsock.Pair puts them
--   on one connection.
--
-- What the parts share is in Base: lists measured by native numbers (Base.Lists), Boolean tests,
-- signed integers with their 32 and 64 bit patterns (Base.Int), texts and the formats of `printf`
-- (Base.Text), and `strtoull` (Base.Strto).
--
-- How the code is rendered. A function of the code is a function here, with the state that it
-- changes as an argument and as a part of the result. An array is a list, and an access that the
-- code makes outside it, or through a pointer that is NULL, is a result of its own: `none`, or a
-- constructor of `Run` in Zpage. A loop over inputs (keys, messages, exits of the machine) is a
-- recursion on the inputs to come, and `none` says that the loop still waits for one. What the
-- kernel or the C library answers is an argument: which calls succeed, what `copy_to_user` leaves,
-- the page tables, the task list, `kstrtol`, `strtol`. Hypotheses on them say what is documented
-- of them.
--
-- Processes that run beside each other are steps: a run of the server of Tcp is a sequence of the
-- events that `epoll` reports, with the results of the calls that each leads to, and a run of
-- WorkQueue is a sequence of steps of the work and of the removal. Threads that run beside the
-- main thread have turns, in any order. Two programs that talk to each other are put together by a
-- theorem over both: the viewer on the device of Dram, user.c on the driver of zpage.c, mem_map.c
-- on the file of sys_reg.c, a client and a server, a module and the program that it signals.
--
-- Bounds and fuel. The loop that fills the viewer's buffer has one unit of fuel for each byte of
-- the buffer, and each round that goes on brings a byte; the viewer's main loop has one for each
-- key to come and one more, and each round takes a key. The loop over the nodes in Procfs.Nodes
-- has one for each node that there may be and one more, and each round leads to a later node.
-- Numbers print with fuel for as many digits as 64 bits can have: 16 in base 16 and 20 in base 10.
-- No other function has fuel: the loops recur on the number of rounds that the code's counters
-- give, or on the inputs. Sums and differences of fixed width wrap where the code's do.
--
-- What is not modelled: modules that print a line when they come and go
-- (src/device_driver/driver1, src/driver/simple_driver, src/driver/module_param_driver), programs
-- that print addresses of their own or a register (test.c, mem_test.c, src/virtual/os), exercises
-- for a debugger (src/linux/gdb_test), scripts in Python and SystemTap, and the notes. Terminal
-- escapes and settings, log lines, times and speeds in floating point, and the registration of
-- devices are left out where they are not named above.
pub mod Base
pub mod Fileview
pub mod KernelList
pub mod Dram
pub mod Cgroup
pub mod Chrdev
pub mod Mmap
pub mod Numa
pub mod Pmon
pub mod Spthread
pub mod Kvm
pub mod WorkQueue
pub mod Zpage
pub mod ProcMem
pub mod Procfs
pub mod EfdKernel
pub mod Eventfd
pub mod SysReg
pub mod Tcp
pub mod Udp
pub mod Vsock
