-- ===== src/Deploy.antt =====
-- services/master-orchestrator/src/deployment_controller.py, and its endpoints in main.py beside it:
-- deployments as state machines that are driven by events.
-- A new id and the time are arguments. `lower` stands for Python's `str.lower`. The lengths that the
-- request models ask for are tested by the web framework ahead of this code. The store hands out the
-- record that it keeps, and the endpoints read it at once: here it is a value.
pub mod Machine
mod Tests
pub mod Store
pub mod Endpoints
