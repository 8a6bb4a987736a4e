-- ===== src/Agents.antt =====
-- How a user picks the AI agent that answers: the commands in a message, the preference that they
-- write, and the step of the pipeline that reads it.
pub mod Command
pub mod Selection
