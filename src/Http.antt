-- ===== src/Http.antt =====
-- yvent/http: an incremental parser of requests, the printer of responses, and the server on top.
pub mod Request
pub mod Context
pub mod Response
pub mod Server
