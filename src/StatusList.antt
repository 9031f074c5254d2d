-- ===== src/StatusList.antt =====
-- internal/statuslist: the revocation status lists.
pub mod Result
pub mod Bitstring
pub mod Store
pub mod Signing
pub mod Publication
