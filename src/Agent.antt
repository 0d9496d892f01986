-- ===== src/Agent.antt =====
-- The agent's pipeline (internal/agent).
pub mod Context
pub mod Dispatcher
pub mod Sdlc
pub mod ThinkingData
pub mod ThinkingEnv
pub mod ThinkingSteps
pub mod Thinking
pub mod Planner
