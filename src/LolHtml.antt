-- ===== src/LolHtml.antt =====
-- The reproducers of lol-html/pocs: drivers that stream tags into a rewriter and report the memory in use.
-- The rewriter and `getrusage` are arguments; `W` is the state of the process.
pub mod Stream
pub mod Lines
pub mod Namespaces
pub mod Counters
mod Tests
