-- ===== src/Tests.antt =====
-- Tests, and the properties at concrete inputs, over a small stand-in for msgpack-c.
mod Toy
mod Witnesses
mod Fixtures
mod Answers
mod Printing
mod Shells
mod Threads
mod Listening
