-- ===== src/Js.antt =====
-- JavaScript values, as far as the service inspects them at run time (`unknown` in the source).
-- Floating-point numbers are the parameter `Numbers`; texts are lists of code points.
pub mod Text
pub mod Value
