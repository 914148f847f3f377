-- ===== src/ExtraSpecs.antt =====
-- internal/extraspecs/extraspecs.go: a pool's extra_specs after decoding. The JSON schema's and the
-- decoder's verdicts come before this code and are not modelled.
pub mod Resolve
pub mod Bounds
