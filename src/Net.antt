-- ===== src/Net.antt =====
-- src/shared/asioapi.cpp: reliable reads and writes over the partial ones of an asio TCP socket.
pub mod Calls
mod Tcp
mod Send
mod Read
pub mod Wire
mod Tests
unfoldable pub use Tcp.*
unfoldable pub use Send.*
unfoldable pub use Read.*
