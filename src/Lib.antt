-- ===== src/Lib.antt =====
-- Verification of vsphere-facade, a REST service that manages the virtual machines of a VMware
-- vCenter: https requests become tasks of the vCenter, through the library govmomi.
--
-- The parts, and the files that model them:
--   * Prelude, with its children, and Action are shared. Prelude has Boolean tests, lists over native
--     numbers, signed integers with Go's wrap-around, and Outcome: what a Go function does that returns
--     a value, returns an error or panics. Action is code that calls the vCenter: it takes and leaves a
--     state of the world, and what was done before an error stays done.
--   * Utils is app/utils/utils.go: slices and pointers that may be nil. Security.Aes is
--     app/utils/aes.go, Security.Tokens api/security/bearer/bearer.go and api/security/jwt/jwt.go.
--   * Version is helper/api.go: the version of the vCenter and the test Newer. DiskFormat is
--     helper/disk/disk_config.go.
--   * Reconfig is helper/virtualmachine/virtualmachinereconfig/virtual_machine_reconfig.go. Its
--     children are Parameter (the request), Device (the devices and their changes), Error, Units
--     (generateUnitNum), Disks (removeDisk, editDisk, addDisk, parseReconfigureDisk), Nics (the same of
--     cards), Spec (the other settings) and Run (Reconfigure, waitReconfigureTask).
--   * Hypervisor is the interface to the vCenter: the properties that are read, and the tasks that are
--     started and awaited. Power is the part of helper/virtualmachine/virtual_machine.go that changes a
--     machine, and WaitForTask of helper/vsphere/vsphere.go.
--   * Operator is vsphere/workerpool/virtual_machine_operator.go: the operations on one machine, which
--     call Power and Reconfig.
--   * Customize is helper/virtualmachine/virtualmachinecustomize/virtual_machine_customize.go: its root
--     has the parameters, Spec the specification, Address the masks and addresses of package net, Network
--     the settings of the cards, System those of the guest's system with GetOSInfo, and Run Customize.
--   * Deployer is vsphere/workerpool/virtual_machine_deployer.go: its root has the parameters and
--     defaults, Steps what is passed to the steps of a deployment, and Machine is Deploy. It calls Power
--     and Reconfig, and Clone, Customize and the waits for the guest through an interface.
--   * Clone is helper/virtualmachine/virtualmachineclone/virtual_machine_clone.go up to the task: the
--     place and the disks of a clone. The template's disks and the finders are given.
--   * Cache is vsphere/cache/vc_cache.go, over a store that is an interface; its entries do not expire.
--   * Codes has the codes of api/e, and Server the state of the program while it serves: the vCenter,
--     the task store, and what was sent to the outside.
--   * Requests is db/badgerdb/badger.go with vsphere/workerpool/taskreceiver/task_receiver.go: the
--     requests that are under way. Callback is vsphere/callback/callback.go. Startup is
--     startup/startup.go, which reports and cancels what an interrupted program left under way.
--   * Api has what the handlers of api/v1/virtual_machine_v1.go share: the responses of api/e, the
--     body and the token of a request, and the tasks that are left to the pools. Api.Machines has the
--     handlers for several machines, Api.Single those for one, Api.Deployment CreateVirtualMachine.
--     They call Requests, and their tasks run Operator and Deployer and end with Callback.
--   * Api.Security is api/security/security.go and ErrHandler of api/e/handler.go. Api.Routes has the
--     requests of api/router/router.go that change machines. Api.Tracked says how one handler keeps the
--     set of requests under way; Api.Lifecycle runs handlers, tasks in any order and restarts as steps.
--   * Pools is vsphere/workerpool/worker_pool.go: the pools in the cache that all goroutines share.
--     Pools.Callers runs Get for many goroutines at once, as steps on what they share.
--   * Examples has a simulated vCenter with one machine, and runs of the code on it.
--
-- How the code is read:
--   * A pointer that may be nil is an Option, and its dereference panics at nil. An error is a
--     constructor, or its text where a library wrote it. Log lines are left out.
--   * A change of a device points to the device. A later edit of the machine's disks and cards shows
--     through the pointer, so the changes name these by their place, and the lists are returned.
--   * int32 and int64 keep their wrap-around; a parameter of type int32 is an integer.
--   * generateUnitNum is a recursion on fuel, a round for each number asked for and each device, and
--     one more. SliceSplit is one on any fuel; a round more than the slice is long is enough.
--   * govmomi, crypto/aes, encoding/base64, encoding/json, golang-jwt, badger, net/http and ants are
--     records of functions, with what the code relies on as their laws or as named hypotheses.
--   * A lookup in the vCenter by an id (a network, a datastore, a pool) is a function, whose answer does
--     not change while one change is worked out. AssignController of govmomi, which numbers a new disk
--     anew, is a function too.
--   * A task of a pool is a value that waits or runs; a goroutine's calls of Get are the steps of its
--     program, so that another goroutine may run between any two of them.
--
-- Not modelled: Relocate but for the move of one disk, the task of Clone, the queries of api/v1 and of
-- vsphere/ through the cache, and the finders and property readers of helper/, which only call
-- govmomi. The connections and the login of helper/api.go, the reading of the configuration, logging,
-- gin, beego's checks and the generated docs belong to libraries or only call them.
pub mod Prelude
pub mod Utils
pub mod Security
pub mod Version
pub mod Reconfig
pub mod Cache
pub mod Clone
pub mod Customize
pub mod Deployer
pub mod DiskFormat
pub mod Action
pub mod Hypervisor
pub mod Power
pub mod Operator
pub mod Codes
pub mod Server
pub mod Requests
pub mod Callback
pub mod Startup
pub mod Api
pub mod Pools
pub mod Examples
