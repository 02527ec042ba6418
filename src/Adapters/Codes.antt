-- ===== src/Adapters/Codes.antt =====
-- The status codes of wscengine/wsadapters/constants.go against those of RFC 6455, section 7.4.1,
-- which the comments of the file name.
use gowsclient.Base.{pos, List, [], ◌∷◌}
use gowsclient.Adapters.Constants.{StatusCode}

-- The codes that the comments give, in the order of the file.
abbrev pub rfc_codes : List StatusCode
rfc_codes =
    pos 1000
    ∷ pos 1001
    ∷ pos 1002
    ∷ pos 1003
    ∷ pos 1005
    ∷ pos 1006
    ∷ pos 1007
    ∷ pos 1008
    ∷ pos 1009
    ∷ pos 1010
    ∷ pos 1011
    ∷ pos 1015
    ∷ []
