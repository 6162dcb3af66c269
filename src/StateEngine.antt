-- ===== src/StateEngine.antt =====
-- services/phlo-observer/src/phlo_observer/state_engine.py: the reducers that fold canonical events
-- into projection state.
pub mod Event
pub mod Keys
pub mod Asset
pub mod Run
pub mod Entities
pub mod Attributes
mod Tests
