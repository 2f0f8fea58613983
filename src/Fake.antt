-- ===== src/Fake.antt =====
-- transport/fake: the directory that the tests of consumers run against.
pub mod Objects
pub mod Wildcard
pub mod Filter
pub mod Search
