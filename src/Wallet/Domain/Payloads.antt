-- ===== src/Wallet/Domain/Payloads.antt =====
-- What the codec promises.
use go_fintech_microservices.Prelude.{◌≡◌}
use go_fintech_microservices.Wallet.Domain.{Codec, EventCodec}

-- Documented for encoding/json: a payload that was marshalled is read back whole, also from a JSONB
-- column. (Texts reach the services as valid UTF-8.)
pub record IsCodec {Bytes P : Type 0} (column : Bytes → Bytes) (c : Codec Bytes P) : Type 0 where
  pub direct : (p : P) → c.unmarshal (c.marshal p) ≡ p
  pub stored : (p : P) → c.unmarshal (column (c.marshal p)) ≡ p

pub record IsEventCodec {Bytes : Type 0} (codec : EventCodec Bytes) : Type 0 where
  pub created : IsCodec codec.column codec.created
  pub deposited : IsCodec codec.column codec.deposited
  pub withdrawn : IsCodec codec.column codec.withdrawn
  pub reserved : IsCodec codec.column codec.reserved
  pub released : IsCodec codec.column codec.released
