-- ===== src/Control.antt =====
-- The control plane's own decisions (internal/controlplane): ports, admission, the choice of a gateway,
-- and the handling of a call. The HTTP server around them is not modelled.
pub mod Ports
pub mod Admission
pub mod Gateways
mod Tests
pub mod Calls
