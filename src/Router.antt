-- ===== src/Router.antt =====
-- hw3/starter: the distance-vector router.
pub mod Types
pub mod Table
pub mod Dv
pub mod Forward
pub mod Loop
pub mod Conf
pub mod Sendpkt
mod Tests
