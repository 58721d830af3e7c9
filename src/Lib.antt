-- ===== src/Lib.antt =====
-- Verification of spacetest, a Go package for tests in transient Linux namespaces, and of its
-- spacer, a service that creates namespaces for a client, in child user and PID namespaces too.
--
-- The program and its parts. A test calls Execute (execute.go) to run a function in given
-- namespaces, EnterTransient or NewTransient (transient.go) to enter or make a new namespace, and
-- Type, Ino, Current (space.go) and Name (spacenames.go) to speak of one. Where a process of many
-- threads cannot enter the namespaces, a client (spacer/client.go) asks a service for them: the
-- service (spacer/service) makes them and sends their descriptors with the messages of spacer/api
-- over the unix domain sockets of uds.
--
-- The files.
--   Base: booleans, lists and numbers; Base.Effects: Go code as a function of a state, which ends
--     early by a returned error or a panic, with `defer`, `recover` and expectations; Base.Post: the
--     rules by which the theorems go through such code; Base.Decimal: what the code uses of strconv
--     and strings, on bytes.
--   Kernel: the system calls and the few calls of the Go runtime as an interface. They are not
--     code of the repository, so they are a parameter of everything else. Kernel.Calls: the calls as
--     effects; Kernel.Laws: the rules of the manual pages that the theorems assume (`IsLinux`);
--     Kernel.Table, Kernel.Held, Kernel.Place (with Kernel.Place.Rules): what each call does to the
--     open descriptors, to those that a response holds, and to the place of a thread.
--   Spaces: spacenames.go. Space: space.go.
--   Execute, Execute.InAndOut, Execute.Separate: execute.go. Execute.Sorts: its two kinds of
--     arguments; Execute.Separate's children follow goSeparate, from the namespaces that it picks up
--     (Spaces, Pickups) over its go routine (Enter, Runs) to what its caller finds (Waits, Promises,
--     Returns); Execute.Laws and Execute.Mounts: all of Execute, without and with a mount namespace.
--   Transient: transient.go. Netns: netns. Mntns: mntns.
--   Uds: NewUnixConn and NewPair of uds/uds.go. Uds.Messages: its SendWithFds and ReceiveWithFds,
--     over an interface for net.UnixConn and the functions on control messages.
--   Api, Api.Fds, Api.Rooms, Api.Subspace: spacer/api.
--   Spacer.PidFd: spacer/pidfromfd.go. Spacer.Gobmsg: spacer/gobmsg, over an interface for
--     encoding/gob.
--   Spacer.Client: Rooms and NewTransient of spacer/client.go; Spacer.Client.Exchange: its do, with
--     spacer/api/have_failed_matcher.go, and with the service at the other end
--     (Spacer.Client.Exchange.Made); Spacer.Client.Binary: its spacerServicePath, called by any number
--     of callers in any interleaving; Spacer.Client.Subspace: its New, Close, PID and Subspace,
--     with spacer/options.go.
--   Service.NewNamespace, Service.Room, Service.Subspace: spacer/service/spacer.go. A writer for the
--     output of children is a number; what package os/exec keeps open in the service for a child that
--     it started (pipes to such writers, a PID descriptor) is a result of the start.
--   Service.Serve: spacer/service/service.go. Service.Command: the command spacer-service.
--   Tests: a small kernel that keeps the rules, with the theorems at concrete inputs.
--
-- State. A go routine's code works on a `State`: the kernel's world, the thread that it runs on,
-- how often it is locked to it, and what Ginkgo's DeferCleanup is to close. File descriptors are
-- integers, as in the source; namespaces and threads are numbers. A variable that deferred functions
-- read (callersNamespaces of goInAndOut) is passed on explicitly. A function that a Go function
-- returns is a definition of its own that takes the variables it captures.
--
-- Bounds. All loops are over lists. The printing of numbers in decimal recurses on fuel, one more
-- than the number, which is at least its count of digits. Flags and types are natural numbers, and
-- the complement of a flag set is taken in 64 bits. PIDs are read as signed 32-bit numbers. The
-- buffers of encoder and decoder have 8192 bytes, as in the source.
--
-- What is not modelled: logging, the values that Gomega formats into messages, what gexec does to
-- build the service's binary, the go routine that waits for a child process and with it
-- the end of what os/exec keeps for the child, the times of deadlines,
-- and the channel that ends the idle thread of NewTransient in mntns. The loop of the service runs
-- over a list of what its rounds meet when they receive. A client's calls give the
-- client that they leave, and Rooms runs one exchange.
pub mod Base
pub mod Spaces
pub mod Kernel
pub mod Api
pub mod Space
pub mod Execute
pub mod Transient
pub mod Netns
pub mod Mntns
pub mod Uds
pub mod Spacer
pub mod Service
mod Tests
