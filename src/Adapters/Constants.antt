-- ===== src/Adapters/Constants.antt =====
-- wscengine/wsadapters/constants.go. The values are those that `iota` gives: the number of the
-- line in its const block, from 0, where a line without an expression repeats the one above.
use gowsclient.Base.{ℕ, ◌+◌, ℤ, pos, List, [], ◌∷◌}

-- A StatusCode and a MessageType are Go ints.
abbrev pub StatusCode : Type 0
StatusCode = ℤ

abbrev pub MessageType : Type 0
MessageType = ℤ

-- The three expressions of the const block, at line `iota`.
abbrev first_block : ℕ → StatusCode
first_block iota = pos (iota + 1000)

abbrev second_block : ℕ → StatusCode
second_block iota = pos (iota + 1000 + 1)

abbrev third_block : ℕ → StatusCode
third_block iota = pos (iota + 1000 + 3)

abbrev pub normal_closure : StatusCode
normal_closure = first_block 0

abbrev pub going_away : StatusCode
going_away = first_block 1

abbrev pub protocol_error : StatusCode
protocol_error = first_block 2

abbrev pub unsupported_data : StatusCode
unsupported_data = first_block 3

abbrev pub no_status_received : StatusCode
no_status_received = second_block 4

abbrev pub abnormal_closure : StatusCode
abnormal_closure = second_block 5

abbrev pub invalid_frame_payload_data : StatusCode
invalid_frame_payload_data = second_block 6

abbrev pub policy_violation : StatusCode
policy_violation = second_block 7

abbrev pub message_too_big : StatusCode
message_too_big = second_block 8

abbrev pub mandatory_extension : StatusCode
mandatory_extension = second_block 9

abbrev pub internal_error : StatusCode
internal_error = second_block 10

abbrev pub tls_handshake : StatusCode
tls_handshake = third_block 11

abbrev pub text : MessageType
text = pos (0 + 1)

abbrev pub binary : MessageType
binary = pos (1 + 1)

-- The declared status codes, in the order of the file.
abbrev pub status_codes : List StatusCode
status_codes =
    normal_closure ∷ going_away ∷ protocol_error ∷ unsupported_data ∷ no_status_received
    ∷ abnormal_closure ∷ invalid_frame_payload_data ∷ policy_violation ∷ message_too_big
    ∷ mandatory_extension ∷ internal_error ∷ tls_handshake ∷ []
