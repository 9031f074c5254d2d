-- ===== src/Gates.antt =====
-- The verifier's checks of internal/handlers/delegation.go, after the remote product has verified the
-- signatures of a presentation: the window of validity, the revocation on published lists, delegation,
-- and the cards that show them.
pub mod StatusBit
pub mod Verdict
pub mod Cards
