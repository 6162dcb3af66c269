-- ===== src/Observer.antt =====
-- services/phlo-observer/src/phlo_observer: what the observer derives from the folded events.
pub mod Incidents
