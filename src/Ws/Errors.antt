-- ===== src/Ws/Errors.antt =====
-- ws/errors.go, and the roles of ws/conn.go.
use ews.Common.{ℕ}
use ews.Codec.Decoder.{DecodeError}
use ews.Codec.Encoder.{EncodeError}

-- `Role`: `Server` reads masked frames and writes unmasked ones; `Client` does the reverse.
pub data Role : Type 0 where
  server client : Role

-- The errors of this package, and those that it passes on from codec.
pub data Cause : Type 0 where
  closing protocol invalid_utf8 message_too_large invalid_data invalid_config : Cause
  message_open no_message queue_full : Cause
  decoding : DecodeError → Cause
  encoding : EncodeError → Cause

-- `Error`: a terminal protocol failure with its close code.
pub record Failure : Type 0 where
  pub code : ℕ
  pub err : Cause
