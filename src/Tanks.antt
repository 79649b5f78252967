-- ===== src/Tanks.antt =====
-- The pure algorithms of the tanks (app/modules/zylo_liquid/algorithms.py). Heights, volumes and
-- durations are whole numbers of a small unit; a difference is compared by moving its second part
-- to the other side, so no sign is lost.
pub mod Levels
pub mod Calibration
mod Tests
