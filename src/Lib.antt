-- ===== src/Lib.antt =====
-- Squiddish, a caching forward proxy for HTTP: a model of its logic, with proofs.
--
-- A request reaches the handler (src/proxy/handler.rs), which validates it, looks for its key in the
-- cache (src/cache), and else fetches it from upstream, passing the body on and storing it. APT
-- requests (src/apt.rs) have lifetimes of their own.
--
-- - Prelude: names of the libraries, Boolean tests, lists measured by native numbers.
-- - Text: the functions on `str` that the program takes from Rust. A text is the list of its bytes.
-- - Error: src/error.rs. `Result` has a third case for a Rust panic.
-- - Apt: src/apt.rs, the three tests on URIs.
-- - Cache: src/cache. Cache: entries (mod.rs). Cache/Key: key.rs, where SHA-256 and hex are the
--   interface `Digests`. Cache/Files: the file system and JSON as interfaces with the laws that the
--   cache relies on. Cache/Disk: disk.rs; a method takes the state `DiskCache` and returns its result
--   and the new state, and the files are in the field `world`. The lock of the writers makes `put`
--   and `remove` exclude one another. Its field `data` is `content` in the model. Cache/Disk/Rebuild
--   is its scan at the start, and Cache/Disk/Fifo the queue that it refines. Cache/Memory: memory.rs,
--   on moka as an interface. Cache/Tiered: the two tiers of mod.rs. Cache/Inflight: inflight.rs; each
--   operation is a step under the lock of the map, and the channels of tokio are an interface.
-- - Config: src/config.rs. Variables come from a function `get_var`; the parsers of Rust's library
--   for addresses, Booleans and floats are an interface.
-- - Proxy: src/proxy. Proxy/Http: header maps and status codes as an interface. Proxy/Shared: what
--   requests share, and all interfaces together. Proxy/Policy and Proxy/Host: the functions of
--   handler.rs on headers, hosts and targets. Proxy/Handler: the validation of requests, their keys
--   and escaping. Proxy/Handler/Download: the loop over the body of a response, which is the list of
--   its reads, and its lifetime; Proxy/Handler/Fetch: `fetch_and_stream` around that loop, and the
--   task that runs it; Proxy/Handler/Forward: `forward_request_full`; Proxy/Handler/Dispatch:
--   `handle_request` with all that it calls. Proxy/Responses: the responses for a cached entry, a
--   download and an error. Proxy/Tunnel: `handle_connect`, with the semaphore of tokio as an
--   interface. Proxy/Server: mod.rs, as a system of steps. Proxy/Client: client.rs. Proxy/Streaming:
--   streaming.rs, on the results of the stream, which is a parameter.
-- - Samples: instances of the interfaces for the examples.
--
-- Numbers are unbounded; `u64` additions are written with their wrap-around (`add64`), and the
-- theorems on sizes assume that the sizes stay below 2 ^ 64. Loops are recursions on the list that
-- they consume. Only the walk over the directory of the cache (Cache/Disk/Rebuild) has fuel, and a
-- theorem gives enough of it for a finite tree. Logging is left out. Time is a number of nanoseconds.
--
-- A request for a download is handled in two parts: up to its wait for the headers, and behind it.
-- The task of a download runs in one step (Proxy/Handler/Fetch); Proxy/Handler/Dispatch/Late cuts it
-- where another request joins, and what requests for the same key do in between is a sequence of steps
-- in Cache/Inflight/Joining.
--
-- Every operation on files may fail in the model but the reading of a file that is there. The theorems
-- on the accounts of the disk cache and on what it returns assume `Faultless`: files that are there are
-- measured and removed without a fault. Cache/Disk/Removal is about removals that fail. `get` is one
-- step between the calls that write; that a reader and a writer of the same key overlap is left out, and
-- so is the memory that `read_entry` reserves for a body.
--
-- Not modelled: sockets, the copying of bytes in tunnels, the start of the process and the runtime;
-- moka, hyper and the other crates, which are parameters where the model meets them.
pub mod Prelude
pub mod Text
pub mod Error
pub mod Apt
pub mod Cache
pub mod Config
pub mod Proxy
pub mod Samples
