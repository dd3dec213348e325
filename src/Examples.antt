-- ===== src/Examples.antt =====
-- The theorems at concrete inputs, and the model run on concrete inputs.
mod Fixtures
mod NegotiationExamples
mod SecurityExamples
mod TextExamples
mod TelnetExamples
mod PlayersExamples
mod LoginExamples
mod PayloadExamples
mod AuditExamples
