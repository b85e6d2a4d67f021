-- ===== src/Registry.antt =====
-- src/client_registry.c: the file descriptors of the connected clients, under four semaphores.
-- The semaphore calls are those of csapp.c; they are a parameter, `Semaphores`.
mod Defs
pub mod Contents
pub mod Values
pub mod Invariant
pub mod Register
pub mod Unregister
pub mod Waiting
pub mod History
pub mod Interface
pub mod Draining
pub mod Threads
pub use Defs.{Semaphores, ClientRegistry, Sem, fd_setsize}
unfoldable pub use Defs.{
  creg_init, creg_register, creg_unregister, creg_wait_for_empty, creg_shutdown_all,
  search_for_empty_slot,
}
pub mod Tests
