-- ===== src/Redis.antt =====
-- Redis as the program uses it. The server is not part of the repository: `Redis` is its interface,
-- a record of the commands with their documented effect, and the code that talks to it takes a
-- value of it. `Redis/Memory` is a value, for the examples.
pub mod Memory
pub mod Defs
unfoldable pub use Defs.*
