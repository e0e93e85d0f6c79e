-- ===== src/Parser.antt =====
-- internal/parser: the YAML files of a service, checked against their schema before they are decoded.
pub mod Nodes
pub mod Schema
pub mod Files
pub mod Served
