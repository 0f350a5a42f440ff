-- ===== src/Protocol/Examples.antt =====
-- internal/hnieoj/protocol/protocol.go at concrete inputs.
use go_judge.Prelude.{◌≡◌, ◌↔◌, refl, Bytes, codes, none, some, arith}
use go_judge.Prelude.Int.{pos, ◌+ℤ◌}
use go_judge.Prelude.Ascii.{to_upper}
use go_judge.Protocol.{
  Purpose, Envelope, fields_of, canonical, put_uint32, skew_or_default, validate_inbound,
}
use go_judge.Protocol.Canonical.{normal, signed-determines}
use go_judge.Protocol.Inbound.{IsFresh, validate_inbound-accepts_iff}

abbrev request : Bytes → Purpose
request verb =
    Purpose.http (codes "a") (codes "n") (codes "k") verb (codes "/p") (codes "d") (codes "1")
      (codes "o")

signed-determines_example : normal (request (codes "get")) ≡ normal (request (codes "GET"))
unfolding fields_of canonical put_uint32 to_upper
signed-determines_example =
    signed-determines (request (codes "get")) (request (codes "GET")) (omega arith) (omega arith)
      refl

abbrev ping : Envelope
ping = record {
  version = pos 1;
  message_type = codes "PING";
  request_id = codes "r";
  timestamp = pos 90000;
}

validate_inbound-accepts_iff_example :
    (validate_inbound (some ping) (pos 50000) (pos 10000) (pos 0) ≡ none)
    ↔ IsFresh (pos 50000 +ℤ pos 10000) (skew_or_default (pos 0)) ping
unfolding ◌+ℤ◌
validate_inbound-accepts_iff_example =
    validate_inbound-accepts_iff ping (pos 50000) (pos 10000) (pos 0) (omega arith) (omega arith)
      (omega arith)
