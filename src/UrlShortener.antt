-- ===== src/UrlShortener.antt =====
-- 11_case_studies/01_url_shortener.py: codes for numbers (UrlShortener.Base62), the scramble of the
-- numbers (UrlShortener.Scramble), and the shortener over its allocator, database and cache.
pub mod Base62
pub mod Digits
pub mod Scramble
pub mod Cache
pub mod Server
pub mod Resolve
pub mod Codes
pub mod Links
pub mod Hashing
mod Tests
pub mod Walks
pub mod Feistel
