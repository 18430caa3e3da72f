-- ===== src/Kafka.antt =====
-- Records of github.com/twmb/franz-go as the handlers see them, and their consumer.
pub mod Consumer
use go_fintech_microservices.Prelude.{String, List, [], ◌∷◌, str_eq, if◌then◌else◌}

-- A `kgo.Record`: its headers and its value.
pub record Record (Bytes : Type 0) : Type 0 where
  pub headers : List (String × String)
  pub value : Bytes

-- `headerValue`: the first header of the key, or the empty text.
unfoldable pub header_value : List (String × String) → String → String
header_value [] key = ""
header_value ((k, v) ∷ headers) key = if str_eq k key then v else header_value headers key

abbrev pub event_type_of : {Bytes : Type 0} → Record Bytes → String
event_type_of r = header_value r.headers "event_type"

abbrev pub event_id_of : {Bytes : Type 0} → Record Bytes → String
event_id_of r = header_value r.headers "event_id"
