-- ===== src/Subprocess.antt =====
-- Child processes: `subprocess_shell`, `subprocess_exec` and the pipe classes inside it, of
-- talyn/loop.py.
pub mod ReadPipe
pub mod Reading
pub mod Delivery
pub mod Arming
pub mod WritePipe
pub mod Command
pub mod Wrapper
pub mod Pipes
pub mod Spawn
pub mod Start
pub mod Starting
pub mod Bridges
pub mod Delegates
pub mod Writing
mod Tests
