-- ===== src/Adapters/Nhooyr/Conversions.antt =====
-- The conversions of status codes and message types in
-- wscengine/wsadapters/nhooyr/nhooyr_websocket_connection_adapter.go.
use gowsclient.Base.{
  ℤ, pos, negsuc, ◌≡◌, refl, Bool, true, false, ◌==ℤ◌, List, [], ◌∷◌, arith, if◌then◌else◌,
}
use gowsclient.Adapters.Constants.{
  StatusCode, MessageType, status_codes, tls_handshake, abnormal_closure, text, binary,
}
use gowsclient.Adapters.Nhooyr.{
  Constants, convert_to_nhooyr_status_codes, convert_from_nhooyr_status_codes,
  convert_to_nhooyr_msg_types, convert_from_nhooyr_msg_types,
}

-- The values that the library documents: the status codes are those of RFC 6455.
pub record IsRfc (k : Constants) : Type 0 where
  pub normal : k.status_normal_closure ≡ pos 1000
  pub going : k.status_going_away ≡ pos 1001
  pub protocol : k.status_protocol_error ≡ pos 1002
  pub unsupported : k.status_unsupported_data ≡ pos 1003
  pub no_status : k.status_no_status_rcvd ≡ pos 1005
  pub abnormal : k.status_abnormal_closure ≡ pos 1006
  pub invalid : k.status_invalid_frame_payload_data ≡ pos 1007
  pub policy : k.status_policy_violation ≡ pos 1008
  pub too_big : k.status_message_too_big ≡ pos 1009
  pub mandatory : k.status_mandatory_extension ≡ pos 1010
  pub internal : k.status_internal_error ≡ pos 1011
  pub tls : k.status_tls_handshake ≡ pos 1015
  pub text_type : k.message_text ≡ pos 1
  pub binary_type : k.message_binary ≡ pos 2

-- Whether a code is one of a list.
abbrev pub is_among : ℤ → List ℤ → Bool
is_among c [] = false
is_among c (x ∷ xs) = if c ==ℤ x then true else is_among c xs

abbrev pub rfc_constants : Constants
rfc_constants = record {
  status_normal_closure = pos 1000;
  status_going_away = pos 1001;
  status_protocol_error = pos 1002;
  status_unsupported_data = pos 1003;
  status_no_status_rcvd = pos 1005;
  status_abnormal_closure = pos 1006;
  status_invalid_frame_payload_data = pos 1007;
  status_policy_violation = pos 1008;
  status_message_too_big = pos 1009;
  status_mandatory_extension = pos 1010;
  status_internal_error = pos 1011;
  status_tls_handshake = pos 1015;
  message_text = pos 1;
  message_binary = pos 2;
}

IsRfc-eq : (k : Constants) → IsRfc k → k ≡ rfc_constants
IsRfc-eq k h = λ i. record {
  status_normal_closure = h.normal i;
  status_going_away = h.going i;
  status_protocol_error = h.protocol i;
  status_unsupported_data = h.unsupported i;
  status_no_status_rcvd = h.no_status i;
  status_abnormal_closure = h.abnormal i;
  status_invalid_frame_payload_data = h.invalid i;
  status_policy_violation = h.policy i;
  status_message_too_big = h.too_big i;
  status_mandatory_extension = h.mandatory i;
  status_internal_error = h.internal i;
  status_tls_handshake = h.tls i;
  message_text = h.text_type i;
  message_binary = h.binary_type i;
}

to_rfc :
    (c : StatusCode)
    → convert_to_nhooyr_status_codes rfc_constants c
      ≡ (if c ==ℤ tls_handshake then pos 1015 else if is_among c status_codes then c else pos 1006)
unfolding convert_to_nhooyr_status_codes
to_rfc (pos n) = ground arith
to_rfc (negsuc n) = refl

-- With the library's documented codes, a status code of the repository is sent as it is, but for
-- TLSHandshake, whose value is mapped to 1015; any other int is sent as 1006.
to_nhooyr_values :
    (k : Constants) (c : StatusCode)
    → IsRfc k
    → convert_to_nhooyr_status_codes k c
      ≡ (if c ==ℤ tls_handshake then pos 1015 else if is_among c status_codes then c else pos 1006)
to_nhooyr_values k c h = rw (IsRfc-eq k h) (to_rfc c)

from_to_rfc :
    (c : StatusCode)
    → convert_from_nhooyr_status_codes rfc_constants
        (convert_to_nhooyr_status_codes rfc_constants c)
      ≡ (if is_among c status_codes then c else abnormal_closure)
unfolding convert_from_nhooyr_status_codes
from_to_rfc (pos n) = rw (to_rfc (pos n)) (ground arith)
from_to_rfc (negsuc n) = rw (to_rfc (negsuc n)) refl

-- With the library's documented codes, every declared status code survives the way to the library
-- and back, and any other int comes back as AbnormalClosure.
pub from_to_nhooyr :
    (k : Constants) (c : StatusCode)
    → IsRfc k
    → convert_from_nhooyr_status_codes k (convert_to_nhooyr_status_codes k c)
      ≡ (if is_among c status_codes then c else abnormal_closure)
from_to_nhooyr k c h = rw (IsRfc-eq k h) (from_to_rfc c)

-- With the library's documented codes, Text and Binary survive the way to the library and back, and
-- any other message type comes back as Binary.
from_to_nhooyr_types :
    (k : Constants) (ty : MessageType)
    → IsRfc k
    → convert_from_nhooyr_msg_types k (convert_to_nhooyr_msg_types k ty)
      ≡ (if ty ==ℤ text then text else binary)
unfolding convert_from_nhooyr_msg_types convert_to_nhooyr_msg_types
from_to_nhooyr_types k ty h = rw (IsRfc-eq k h) (by_cases ty)
  where
    by_cases :
        (t : MessageType)
        → convert_from_nhooyr_msg_types rfc_constants (convert_to_nhooyr_msg_types rfc_constants t)
          ≡ (if t ==ℤ text then text else binary)
    by_cases (pos n) = ground arith
    by_cases (negsuc n) = refl
