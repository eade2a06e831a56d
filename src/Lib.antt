-- ===== src/Lib.antt =====
-- go-cosmwasm: the Go bindings of the CosmWasm virtual machine, and the Rust side of the boundary
-- between the two, as a model over explicit state.
--
-- Parts and files
-- - Base: names of the libraries, Boolean tests on the native ℕ, lists, a dictionary, text.
-- - Go: Go's control flow. A computation over a state S returns, panics, or corrupts memory
--   (`fault`: a double free, a read outside a block). What it wrote before a panic stays written.
-- - Types/StdError, Types/SystemError, Types/Errors: types/stderror.go and types/systemerror.go.
--   `Error` has a constructor for each dynamic type of Go's `error` that ToStdError and
--   ToSystemError tell apart, the pointer types with their nil included, and `other` for the rest.
--   Types/Errors/Convert has their laws.
-- - Types/Queries: the requests of types/queries.go, ToQuerierResult and RustQuery.
--   Types/Responses: its responses, and the JSON methods of Validators and Delegations. Types/Msg:
--   types/msg.go and types/env.go. Types/Coins: types/types.go.
-- - Ffi/Memory: src/memory.rs over a heap of numbered blocks, each malloc's or Rust's. A free of a
--   block that is not there or is the other allocator's is a fault.
-- - Ffi/Status: src/error/go.rs. Ffi/Storage: get, set and remove of src/db.rs, which call Go
--   through the vtable; Ffi/Storage/Refines compares them with the application's store. Ffi/Range:
--   range of src/db.rs. Ffi/Scan: src/iterator.rs. Ffi/Address: src/api.rs. Ffi/Query:
--   src/querier.rs; Ffi/Query/Realises and Echoing: queriers that work on the whole world.
-- - Ffi/Program: a contract's run as a tree of storage calls, steps of iterators, address calls and
--   queries, which Ffi/Program runs through the boundary and Ffi/Program/Direct on the application
--   itself, with the iterators that it has open and the bytes of their entries. Ffi/Agreement,
--   Ffi/Lockstep and Ffi/Program/Mirrors: what it means that two such runs are the same.
--   Ffi/Memory/Grown: a heap with blocks of Rust's that nobody consumes.
-- - Ffi/Error: src/error/rust.rs. Ffi/Call: the state of one call of src/lib.rs, with the variables
--   of the caller whose addresses it is given. Ffi/Machine: the functions do_* of src/lib.rs, over
--   the crate cosmwasm_sgx_vm, which is the record `Vm`. Ffi/Entry: the functions that Go calls,
--   and `library`, which is all of them.
-- - Api/World: the state of the package api: its tables, the heap, and the application's state of
--   any type H. Api/Host: the interfaces that the application implements, as records of
--   computations over H, each of which may panic.
-- - Api/Memory: api/memory.go. Api/Iterator: api/iterator.go, with each function one step, as its
--   mutex makes it; Api/Iterator/Interleaving has every interleaving of calls as a step relation.
-- - Api/Callbacks: api/callbacks.go. A pointer that Rust passes is a slot, none if it is null:
--   Db has cGet, cSet and cDelete, Scan has cScan and cNext, Address the two address callbacks,
--   Query has cQueryExternal. Api/Gateways: api/callbacks_cgo.go, and the tables of functions through
--   which Ffi/Storage, Ffi/Range, Ffi/Scan, Ffi/Address and Ffi/Query call Go.
-- - Api/Library: the functions of the Rust library that api/lib.go calls, as a parameter: each is
--   any computation on the world, or Ffi/Entry. Api/Contract: Instantiate, Handle, Migrate and
--   Query of api/lib.go; Api/Contract/Whole, Asked, Refused and Depleted put them together with
--   Ffi/Entry and Ffi/Program, and Callee, Nested and Reentrant with a querier that calls Query in
--   turn. Api/Contract/Sparing: computations that leave malloc's blocks alone, of which
--   Ffi/Query/Sparing has the query, Ffi/Entry/Sparing the functions of src/lib.rs and
--   Api/Contract/Buffers the calls of contracts. Api/Calls: the other functions of api/lib.go.
--   Api/Stubs: api/lib_mock.go.
-- - Wasmer: lib.go, over the package api; Wasmer/Whole goes from there to the contract. Cmd:
--   cmd/main.go.
-- - Tests: runs on concrete inputs.
--
-- How they interact: Wasmer encodes the environment and calls Api/Contract, which lends the
-- arguments to Rust (Api/Memory), opens a frame of iterators (Api/Iterator) and calls the Rust
-- library. Rust calls back (Ffi/Storage, Api/Callbacks) into the application's store, gas meter,
-- addresses and querier (Api/Host). Values come back as buffers of the shared heap (Ffi/Memory).
--
-- Bounds: uint64 counters and gas wrap at 2^64 (`u64_mod`); the length of a buffer is cut to 32 bits
-- and read as signed where Go copies it. `format_uint` runs on fuel 20, the number of digits of the
-- largest uint64; every other loop is structural recursion.
--
-- What is relied on of the crate is the record `Runs`: the checksum is known, an instance is at hand
-- without touching the world, the call of the machine is the run of a tree, and recycling the
-- instance touches nothing. Such a tree steps only iterators of its own call, named by the index that
-- src/db.rs was given for them. Of the application's querier it is relied on that it answers as the
-- record `Realises` says: its answers may count calls of other contracts in between and leave blocks
-- of Rust's allocated. Of a contract that is queried it is relied on, for each gas limit, that the
-- machine runs a tree (`Callable`), which may be one that ends out of gas. For the buffers that Go
-- lends it is relied on that the crate touches malloc's blocks only if the querier does (`SparingVm`).
--
-- Not modelled: encoding/json, serde_json and the crate cosmwasm_sgx_vm, which are parameters;
-- failing allocations; logging; the linker flags of api/link_std.go and api/link_muslc.go;
-- api/callbacks_mock.go and api/callbacks_cgo_mock.go, which are commented out but for interfaces.
-- A Rust vector's capacity is its length, and text that Rust reads from
-- Go is taken to be UTF-8, except for the addresses of src/api.rs and the arguments of init_cache.
pub mod Base
pub mod Go
pub mod Types
pub mod Ffi
pub mod Api
pub mod Wasmer
pub mod Cmd
pub mod Tests
