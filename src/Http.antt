-- ===== src/Http.antt =====
-- http.c: strings of the HTTP server. `Uri` has the escapes of URIs, and
-- `Headers` the lists of headers. `Query` parses arguments into such a list.
pub mod Uri
pub mod Headers
pub mod Query
mod Tests
