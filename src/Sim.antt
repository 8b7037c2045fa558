-- ===== src/Sim.antt =====
-- cassette/sim: the simulator under the store: virtual time, the queue of events, the random
-- source, the faults and the network.
pub mod Clock
pub mod Events
pub mod Scheduler
pub mod Rng
pub mod Faults
pub mod Network
pub mod Env
pub mod Simulation
pub mod Injector
mod Tests
