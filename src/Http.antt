-- ===== src/Http.antt =====
-- The HTTP client of http/: headers, URLs, requests, redirects, and the parser of responses.
pub mod Errors
pub mod Headers
pub mod ResponseParser
pub mod Url
pub mod Request
pub mod Cookies
pub mod Redirect
pub mod HttpParser
pub mod Receive
