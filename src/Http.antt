-- ===== src/Http.antt =====
-- prober/http.go: the HTTP probe, in stages. The HTTP client, the regular expressions, the evaluation
-- of CEL, JSON and the decompressors are other libraries', and parameters.
pub mod Match
pub mod Transport
pub mod Request
pub mod Response
pub mod Probe
