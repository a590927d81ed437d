-- ===== src/Template.antt =====
-- template/template.go: stage1 scripts and JSON configurations from a host's record.
pub mod Scripts
pub mod Kargs
pub mod Escaping
