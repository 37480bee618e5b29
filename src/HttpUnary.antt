-- ===== src/HttpUnary.antt =====
-- transport/httpunary.
pub mod Router
pub mod Headers
pub mod ErrorBody
pub mod Call
pub mod Rest
pub mod Examples
