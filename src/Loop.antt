-- ===== src/Loop.antt =====
-- The parts of `class Loop` of talyn/loop.py that are written in Python.
pub mod Executor
pub mod Pools
pub mod Handlers
pub mod Reporting
pub mod Asyncgens
pub mod Running
pub mod Runner
pub mod Context
pub mod PseudoSocket
pub mod Objects
pub mod Factories
pub mod Keywords
pub mod Native
pub mod Serving
pub mod Opened
mod Tests
