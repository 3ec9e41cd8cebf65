-- ===== src/Cli/Subscribe.antt =====
-- How many frames the command `Subscribe` (cli/src/main.rs) prints.
use real_time_data_platform.Base.{
  ℕ, suc, ◌+◌, ◌-◌, ◌≡◌, inl, inr, refl, ap, sym, Option, none, some, List, [], ◌∷◌, arith, leb,
  take, take_all, max, Bool-cases,
}
use real_time_data_platform.Protocol.Frame.{OwnedFrame}
use real_time_data_platform.Cli.{Event, subscribe_loop}

-- The frames that come before the channel is closed.
abbrev pub frames_before : List Event → List OwnedFrame
frames_before [] = []
frames_before (Event.received frame ∷ events) = frame ∷ frames_before events
frames_before (Event.timed_out ∷ events) = frames_before events
frames_before (Event.disconnected ∷ events) = []

-- At most so many frames.
abbrev pub limited : Option ℕ → List OwnedFrame → List OwnedFrame
limited none frames = frames
limited (some most) frames = take (max 1 most) frames

subscribe_loop-take :
    (most count : ℕ) (events : List Event)
    → (subscribe_loop (some most) count events).0
      ≡ take (max 1 (most - count)) (frames_before events)
unfolding subscribe_loop
subscribe_loop-take most count [] = sym (take_all (max 1 (most - count)) [] (omega arith))
subscribe_loop-take most count (Event.received frame ∷ events) =
    elim (Bool-cases (leb most (count + 1))) [
      | inl enough ↦
          let one : max 1 (most - count) ≡ 1 = ground arith in rw (subscribe_loop, enough, one) refl
      | inr more ↦
          let n : max 1 (most - count) ≡ suc (max 1 (most - (count + 1))) = ground arith in
          rw (subscribe_loop, more, n)
            (ap (λ fs. frame ∷ fs) (subscribe_loop-take most (count + 1) events))
    ]
subscribe_loop-take most count (Event.timed_out ∷ events) = subscribe_loop-take most count events
subscribe_loop-take most count (Event.disconnected ∷ events) =
    sym (take_all (max 1 (most - count)) [] (omega arith))

subscribe_loop_all :
    (count : ℕ) (events : List Event) → (subscribe_loop none count events).0 ≡ frames_before events
unfolding subscribe_loop
subscribe_loop_all count [] = refl
subscribe_loop_all count (Event.received frame ∷ events) =
    ap (λ fs. frame ∷ fs) (subscribe_loop_all (count + 1) events)
subscribe_loop_all count (Event.timed_out ∷ events) = subscribe_loop_all count events
subscribe_loop_all count (Event.disconnected ∷ events) = refl

-- The command Subscribe prints the frames that come before its channel is closed, all of them
-- without a limit, and otherwise as many as the limit, but at least one if one comes.
pub subscribe_loop-limited :
    (max_messages : Option ℕ) (events : List Event)
    → (subscribe_loop max_messages 0 events).0 ≡ limited max_messages (frames_before events)
subscribe_loop-limited none events = subscribe_loop_all 0 events
subscribe_loop-limited (some most) events =
    let whole : most - 0 ≡ most = omega arith in rw whole at (subscribe_loop-take most 0 events)
