-- ===== src/Power.antt =====
-- The power monitor of src/power: the INA219 driver and the polling of the battery.
pub mod Ina219
pub mod Battery
pub mod Tests
pub mod JsonTests
