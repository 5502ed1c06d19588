-- ===== src/Lib.antt =====
-- thermal-observatory reads the temperatures, powers and fan speeds of a machine into one snapshot
-- and prints it. The collectors (src/platform, src/cpu, src/gpu) each add to the snapshot of
-- include/thermal_monitor.h; the formatters (src/format) turn it into JSON, Prometheus metrics or
-- plain text; src/thermal_main.c runs the collectors in order and then one formatter.
--
-- The parts and their models:
-- - Base, Libc: bytes, signed integers, bounded loops, and what the code uses of the C library:
--   printf's integers, "%ld", strstr, strrchr, strtok, fgets.
-- - Double: the operations on `double` that the code uses, as an interface. The type and its
--   operations are parameters of every theorem; Tests has two instances. Its `strtod` stands for
--   both sscanf's "%lf" and atof, which differ on texts such as "1e".
-- - Snapshot: the structs, limits and capability bits of include/thermal_monitor.h. A count and an
--   array are one list; Snapshot.Bounds says when a snapshot fits its arrays and texts.
-- - Platform: the record `Host` stands for the machine (environment, files, glob, commands), which
--   is a parameter and does not change during a collection. Platform.Paths is
--   src/platform/linux_paths.c, Platform.Sysfs is src/platform/linux_sysfs.c, Platform.Ipmi is
--   src/platform/ipmi.c and Platform.Redfish is src/platform/redfish.c.
-- - Cpu.X86 is src/cpu/cpu_x86.c and Cpu.Arm64 is src/cpu/cpu_arm64.c.
-- - Gpu: the vendors' libraries as records of what their functions answer, `none` where dlsym finds
--   nothing. Gpu.Nvidia is src/gpu/gpu_nvidia.c, Gpu.Cuda is src/gpu/gpu_nvidia_cuda.c, Gpu.Dcgm is
--   src/gpu/nvidia_dcgm.c and Gpu.Amd is src/gpu/gpu_amd.c.
-- - Monitor: src/thermal_main.c. Monitor itself is `tm_collect_snapshot`, Monitor.Options the loop
--   over the arguments, Monitor.Show what one round shows, as a list of events, and Monitor.Loop the
--   loop of `main`. Each round brings its own machine, and says whether a signal arrives in it.
-- - Kernel: `kthermal_read` of kernel/k_thermal_probe.c over `simple_read_from_buffer` of Linux. The
--   file operations are registered nowhere, so no process can call it.
-- - Text: src/format/text.c over the interface `Sink` of Writer.
-- - Writer: the buffer writer of src/format/json.c and src/format/prometheus.c, and the interface
--   `Sink` that it fills. The same formatter also runs on an unbounded text; Writer.Simulates
--   relates the two runs.
-- - Json: src/format/json.c. Json.Tree has JSON values, their text and a strict reader of JSON,
--   written without reference to the formatter; Json.Tree.Document says which value a snapshot is.
--   The reader has one unit of fuel for each byte and one more, of which each value and each element
--   takes one.
-- - Prometheus: src/format/prometheus.c over the same writer. Prometheus.Samples says which samples
--   a snapshot is, with labels as pairs, and what their text is.
-- - Tests: concrete runs on the files of tests/fixtures/linux_x86_mock, and the theorems at them.
--
-- A collector that may do what C leaves undefined (a copy without a NUL, a write through the null
-- pointer that strstr gave, a call of a function that dlsym did not find) returns an `Option`, and
-- `none` is the fault. An early `continue` is an inner `none`. Loops over the result of glob
-- recurse on the list; the loop over fgets has one unit of fuel for each byte of the file, which
-- is enough since each call that reads anything takes at least one byte. The
-- digits of a number have one unit of fuel more than its value.
--
-- `main` takes a list of rounds: with --watch it may go on for ever, so a run within the rounds that
-- are given ends with a status, with a fault, or is still running.
--
-- The time stamp is an unbounded number, where the code computes in `long long`; a number out of
-- range is read as glibc reads it, to the nearer end.
--
-- Not modelled: the rest of kernel/k_thermal_probe.c, which only prints and declares, and
-- examples/cuda_heatload.cu, a load generator beside the program. Calls of the C library that fail
-- for lack of resources, failures to write to standard output or to a file that is open,
-- concurrent change of the files read, and formats longer than 2^31 bytes are left out. What a
-- function of a vendor's library leaves in memory is taken to be what its answer says.
pub mod Base
pub mod Cpu
pub mod Double
pub mod Gpu
pub mod Json
pub mod Kernel
pub mod Libc
pub mod Monitor
pub mod Platform
pub mod Prometheus
pub mod Snapshot
pub mod Tests
pub mod Text
pub mod Writer
