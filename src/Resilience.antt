-- ===== src/Resilience.antt =====
-- backend/internal/pkg/resilience/resilience.go: the circuit breaker, the retry loop of an
-- operation, and the retrying HTTP round tripper.
pub mod Breaker
pub mod Policy
pub mod Operation
pub mod RoundTrip
