-- ===== src/Adaptive.antt =====
-- core/src/adaptive_controller.cc and core/include/castcore/adaptive_controller.h: the controller that
-- picks bitrate, resolution, frame rate and playout delay from the receiver's feedback. Each method
-- holds the object's lock, so it is one step; `now` is the steady clock at the call. The doubles are
-- a parameter. Counters are the code's `int`s, which stay small and are never negative.
pub mod State
pub mod Feedback
pub mod Check
pub mod Delay
pub mod Rungs
pub mod Caps
mod Tests
