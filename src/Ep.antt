-- ===== src/Ep.antt =====
-- ep.c: the event loop. `Types` is its state, `Timer` the timers, `File` the descriptors that are
-- watched, `Watch` one descriptor as its owner sees it, `Loop` the rounds, and `Poll` the calls of
-- epoll in ep_poll_epoll.c.
pub mod Types
pub mod Timer
pub mod File
pub mod Watch
pub mod Loop
pub mod Poll
mod Tests
