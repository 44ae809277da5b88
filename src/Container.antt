-- ===== src/Container.antt =====
-- The containers of a session: src/containers.c. The outside world, which the backend's interface, the
-- network and the operating system stand for, enters as the replies that it gives, one for each round
-- of a loop.
pub mod Declaration
pub mod Backend
pub mod Slots
pub mod Start
pub mod Delete
pub mod Cleanup
