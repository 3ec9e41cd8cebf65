-- ===== src/Recovery/Data.antt =====
-- core/src/recovery/engine.rs: the data of the recovery engine. A time (`Instant`) and a
-- `Duration` are numbers of nanoseconds.
use real_time_data_platform.Base.{ℕ, List}
use real_time_data_platform.Protocol.Frame.{OwnedFrame}

pub record ReplayRequestPayload : Type 0 where
  pub request_id : ℕ
  pub from_sequence : ℕ
  pub to_sequence : ℕ

pub record ReplayUnavailablePayload : Type 0 where
  pub request_id : ℕ
  pub first_unavailable : ℕ
  pub last_unavailable : ℕ

pub data RecoveryState : Type 0 where
  live recovering recovery_failed : RecoveryState

pub record ActiveReplayRequest : Type 0 where
  pub request_id : ℕ
  pub from_sequence : ℕ
  pub to_sequence : ℕ
  pub created_at : ℕ
  pub last_sent_at : ℕ
  pub retries_attempted : ℕ
  pub received_sequences : List ℕ

pub record RecoveryConfig : Type 0 where
  pub retry_timeout : ℕ
  pub max_retries : ℕ
  pub max_replay_range : ℕ
  pub max_outstanding_requests : ℕ

abbrev pub default_config : RecoveryConfig
default_config = record {
  retry_timeout = 50_000_000;
  max_retries = 3;
  max_replay_range = 1000;
  max_outstanding_requests = 16;
}

pub record RecoveryEngine : Type 0 where
  pub config : RecoveryConfig
  pub state : RecoveryState
  pub next_request_id : ℕ
  pub outstanding_requests : List (ℕ × ActiveReplayRequest)
  pub buffered_out_of_order : List (ℕ × OwnedFrame)
