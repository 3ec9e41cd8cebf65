-- ===== src/Transport/Channel.antt =====
-- The channel between the worker of a subscriber and the application (transports/udp/src): what the
-- crate crossbeam_channel documents of `bounded`, `try_send` and `try_recv`, as an interface. A
-- channel of capacity 0, which passes a frame on only to a receiver that waits, has no law for
-- `try_send`.
use real_time_data_platform.Base.{
  ℕ, ◌≤◌, ◌<◌, ◌≡◌, Bool, Option, none, some, List, [], ◌∷◌, ◌++◌, length,
}
use real_time_data_platform.Protocol.Frame.{OwnedFrame}

pub record Channel : Type 1 where
  pub Queue : Type 0
  pub bounded : ℕ → Queue
  pub try_send : Queue → OwnedFrame → Queue × Bool
  pub try_recv : Queue → Queue × Option OwnedFrame
  -- The frames that were sent and not yet received, the first one first.
  pub waiting : Queue → List OwnedFrame
  pub capacity : Queue → ℕ
  pub bounded_empty : (n : ℕ) → waiting (bounded n) ≡ []
  pub bounded_capacity : (n : ℕ) → capacity (bounded n) ≡ n
  pub send_room :
      (q : Queue) (f : OwnedFrame)
      → length (waiting q) < capacity q
      → waiting (try_send q f).0 ≡ waiting q ++ f ∷ []
  pub send_full :
      (q : Queue) (f : OwnedFrame)
      → 0 < capacity q
      → capacity q ≤ length (waiting q)
      → waiting (try_send q f).0 ≡ waiting q
  pub send_capacity : (q : Queue) (f : OwnedFrame) → capacity (try_send q f).0 ≡ capacity q
  pub recv_first :
      (q : Queue) (f : OwnedFrame) (fs : List OwnedFrame)
      → waiting q ≡ f ∷ fs
      → ((try_recv q).1 ≡ some f) × (waiting (try_recv q).0 ≡ fs)
  pub recv_empty :
      (q : Queue) → waiting q ≡ [] → ((try_recv q).1 ≡ none) × (waiting (try_recv q).0 ≡ [])
  pub recv_capacity : (q : Queue) → capacity (try_recv q).0 ≡ capacity q
