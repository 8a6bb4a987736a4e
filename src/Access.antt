-- ===== src/Access.antt =====
-- Who may call the REST interface: the tokens of its clients, and the policy of its paths.
pub mod Clients
pub mod Http
