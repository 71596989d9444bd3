-- ===== src/Arena.antt =====
-- The battle simulation of src/arena: fixed-point arithmetic, state, geometry, and the tick.
pub mod Hash
pub mod Detect
pub mod Sintab
pub mod Tuning
pub mod Math
pub mod State
pub mod Input
pub mod Geom
pub mod Collide
pub mod Bombs
pub mod Player
pub mod Hands
pub mod BombTick
pub mod Blasts
pub mod Tick
pub mod Account
pub mod Stick
pub mod Walls
pub mod Root
pub mod Hurt
pub mod Wakes
pub mod Frame
pub mod Course
pub mod Life
pub mod Script
pub mod Tests
pub mod Calm
pub mod Untouched
