-- ===== src/Examples.antt =====
-- Concrete runs of the theorems, on one small community of agents.
mod Scene
mod Texts
mod People
mod Mail
mod Talk
mod Story
mod Restarts
mod Desk
mod Shell
