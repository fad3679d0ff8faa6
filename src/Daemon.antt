-- ===== src/Daemon.antt =====
-- internal/daemon: the tokens, the quoting for the remote shell, the ssh of a tunnel, the transfer of a
-- payload, the handler of one request, the start of the daemon, and the opener of Linux.
pub mod Tokens
pub mod Shell
pub mod Transfer
pub mod Tunnel
pub mod Handle
pub mod Start
pub mod GuiOpener
pub mod KeyedMutex
