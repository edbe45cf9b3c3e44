-- ===== src/Config.antt =====
-- config/config.go: the configuration. The structs are records with the source's fields and the
-- YAML decoder is not modelled: a decoded struct is an argument of what the source does after it.
pub mod Types
pub mod Defaults
pub mod Encoding
pub mod Expressions
pub mod Reload
pub mod Unmarshal
