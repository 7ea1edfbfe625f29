-- ===== src/Dav.antt =====
-- mindin/dav.py: a vault over WebDAV. `unquote` undoes the quoting of a path in a URL, whatever it is.
-- A response is its status, what it says in the ETag header, and its body; the XML is left out: where
-- `do_propfind` renders resources, the model says which.
pub mod Paths
pub mod Resources
pub mod Methods
pub mod Requests
