-- ===== src/Serving.antt =====
-- services/model-service/src: predictions, the store of their results, the two consumers between the
-- topics, and the endpoints of an asynchronous prediction.
pub mod Model
pub mod Runtime
pub mod Waiting
mod Tests
