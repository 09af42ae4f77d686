-- ===== src/Lib.antt =====
-- Verification of the Python code of talyn, an asyncio event loop over io_uring.
--
-- The program. talyn/loop.py declares `class Loop` over a native loop: it sets and calls exception
-- handlers, runs work in thread pools, makes connections and servers, and starts child processes.
-- TLS is written there too: a protocol object (`SP`, `SSP` or `_SP`) takes ciphertext from the raw
-- transport, drives an SSL object over two memory BIOs, and tells the application's protocol;
-- `_SSLTransportWrapper` takes the application's writes and its `close`; the factories of TLS
-- connections wait until the protocol object has settled a future. talyn/server.py counts the
-- connections of a server and wakes those that wait for its end; talyn/runner.py takes a loop
-- down in order; talyn/__init__.py installs the loop on kernels that are new enough. The native
-- loop, tasks, futures and transports are Zig code and are not modelled: what the Python code sees
-- of them is an argument of the definitions. Beside the package stand the build script, a linter,
-- a monitor of vulnerabilities and the benchmarks.
--
-- The files. Each component has a module with its state and operations, and modules with proofs
-- beside it or below it; a module Tests holds the runs on concrete inputs.
--   Base       lists and tests on native numbers; Base/Exec the monad of methods (a state, and a
--              result or a raised exception; what was written before a raise stays written);
--              Base/Int counters that may fall below 0; Base/Text texts.
--   Server     `class Server` of talyn/server.py, every method; Server/History what may happen to
--              a server, in any order, with cancelled waiters; Calls, Waiting, Resuming, Closing
--              and Clients the proofs; Server/View the abstract server that the program may know
--              of, compared in Server/Abstract. Listeners, transports and waiters are numbers,
--              and what the native listeners answer is the argument `Natives`.
--   Loop       Loop/Executor the default executor of talyn/loop.py (`run_in_executor`,
--              `set_default_executor`, `shutdown_default_executor` with the thread of
--              `_do_shutdown` as a step of its own, `close`), with proofs in Loop/Pools;
--              Loop/Handlers the exception handlers, the `_dispatch_` methods and the report of
--              `shutdown_asyncgens`, with proofs in Loop/Reporting; Loop/Asyncgens the whole of
--              `shutdown_asyncgens`; Loop/Running `run_until_complete` over any behaviour of
--              `run_forever`; Loop/Factories the options
--              of `create_connection`, `connect_accepted_socket`, `create_server` and the two
--              factories of unix sockets, with proofs in Loop/Keywords; Loop/Native the native
--              calls that they come to, with TLS and without; Loop/Serving `create_server` and
--              `create_unix_server` up to the Server that they return, compared with the abstract
--              server in Loop/Opened; Loop/Objects `__init__` of the
--              classes of talyn/task.py and talyn/future.py, and the policy; Loop/PseudoSocket the
--              class of that name, over the open file descriptors of the process;
--              Loop/Runner `close` of `class Runner`, talyn/runner.py, and Loop/Context its other
--              methods and the `with` statement over a runner.
--   Ssl        TLS in talyn/loop.py. Ssl/State the state of one connection and of its
--              environment; Ssl/Bio calls on the SSL object and the BIOs; Ssl/Wrapper
--              `_SSLTransportWrapper` with the methods of the protocol object that it calls, and
--              Ssl/Delegates its methods that hand a call on; Ssl/Protocol what the five protocol
--              classes share, and a module for each of them; Ssl/Setup the arguments of
--              `wrap_bio`; Ssl/Connect how `_create_ssl_connection`, `_create_ssl_unix_connection`
--              and `start_tls` start a handshake, wait for it and give it up. The SSL object is an
--              argument, a state with the functions write, read, handshake and unwrap; the laws
--              that the theorems assume of it are in Ssl/Laws, Ssl/Reading and
--              Ssl/Inbound. Reading, Rounds, Plaintext, Flushing, Draining, Order, Channel (the way
--              out), Inbound (the way in), Ciphertext, Shutdown and Handshake hold the proofs about
--              the protocol classes and the wrapper; EndToEnd puts the ways out and in of two peers
--              together; Lifecycle is the whole life of a connection, from `__init__` on, with the
--              proofs in Order, Handshakes, Callbacks, Events and Life; Ssl/Upgrade and Ssl/Factories have
--              what the factories do before they wait, and the whole of them; Untouched and Secure
--              hold proofs about the factories. Keeping and Stable (with Stable/Shutdown,
--              Calls and Reading) carry a property of a connection through the methods.
--   Subprocess `subprocess_shell` and `subprocess_exec` of talyn/loop.py: Subprocess/ReadPipe and
--              WritePipe the two pipe transports, with proofs in Reading, Delivery, Arming and
--              Writing; Subprocess/Command the checks and the choice of the standard files;
--              Subprocess/Wrapper pipe transports on demand and exit waiters, with proofs in
--              Pipes; Subprocess/Spawn the registry of children and the clean-up on an error;
--              Subprocess/Start the whole of the two methods, with the calls of the factory and of
--              Popen, proofs in Starting;
--              Subprocess/Bridges the protocols that stand between a pipe and the child's protocol;
--              Subprocess/Delegates the methods that hand a call on to the child's transport.
--   Package    `install` of talyn/__init__.py: reading the release of the kernel (a text of ASCII
--              characters) and setting the policy; proofs in Package/Release.
--   Linter     tools/linter/rules/python_rules.py: the visitor, the check of a file, and `main`,
--              over what `ast.parse` and `os.walk` answer; proofs in Linter/Visiting and
--              Linter/Exit.
--   Cves       scripts/monitor_io_uring_cves.py: the search for words, the classification of a
--              report and the table; Cves/Report what becomes of the server's answer, and the lines
--              of the table; proofs in Cves/Words, Cves/Table and Cves/Lines.
--   Build      setup.py: the options of the Zig build and the name of the native module of a cross
--              build, proofs in Build/Cross; Build/Commands the commands as steps that may fail,
--              compared in Build/Steps with plain sequences of steps.
--   Bench      benchmark.py: the choice of benchmarks, the runs of growing size and the rows of the
--              table; Bench/Plot the loops that are compared, the points of the plots and the loop
--              over the benchmarks; proofs in Bench/Names, Bench/Sizes and Bench/Bars.
--
-- Conventions. A callback of the application is an argument, a function of what it was told or
-- of the state. Objects whose inside the code does not look at (transports, jobs, handlers) are
-- numbers, and so are bytes. Timeouts are whole numbers: only their sign, or whether they are 0,
-- is asked for. Texts are lists of code points; what depends on the tables of Unicode (`str.lower`,
-- `str.strip`, `\w` of a regular expression) is an argument.
--
-- Fuel. The loops of `_flush_write_buffer` and of `_r` take a bound on their rounds and raise
-- `out_of_fuel`, an exception of the model only, beyond it. The first loop of
-- `_flush_write_buffer` gets one round more than the bytes and the chunks of its buffer together:
-- every round that goes on takes a chunk off or makes one shorter. Its second loop gets two
-- rounds, since a read empties the outgoing BIO. `_r` gets one round more than the backlog of the
-- SSL object, a bound on the reads that still return bytes. The loop of benchmark.py over the sizes
-- gets one round more than there are sizes, since each round doubles the size.
--
-- Not modelled. The Zig sources under src/, the Zig part of the linter, and the tests. Of
-- talyn/loop.py: `get_buffer` of the protocol classes, a view of a buffer; the queries of
-- `_SSLTransportWrapper` that return what the raw transport says; `__repr__` and `__getattr__`. The
-- module function `run` of talyn/runner.py, which calls `asyncio.run`. What setuptools, Zig and
-- pytest do when the commands of setup.py call them. What runs in the child processes of
-- benchmark.py, the deviations in its table, and the layout of the table and of the plots.
pub mod Base
pub mod Server
pub mod Loop
pub mod Ssl
pub mod Subprocess
pub mod Package
pub mod Linter
pub mod Cves
pub mod Build
pub mod Bench
