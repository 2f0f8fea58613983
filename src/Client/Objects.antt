-- ===== src/Client/Objects.antt =====
-- What ou.go, group.go, user.go, computer.go and serviceaccount.go have in common: spec.go, the
-- searches of cmdletvalues.go, classify of errors.go, and the five operations on an object, which
-- those files spell out once for each class. What is of go-adcore or of Go's time package is a field
-- of `Adcore`. The lock per object, which orders the writes of one process, is left out.
pub mod Shape
pub mod Access
pub mod Writing
pub mod Changes
pub mod Searches
