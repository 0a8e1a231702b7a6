-- ===== src/Abbrev/Tests.antt =====
-- A company's name, with the upper case of its own letters.
use Prim.Native.Char.{Char}
use authentication_service.Prelude.{String, Bool, true, some, ◌≡◌, ◌≤◌}
use authentication_service.Abbrev.Derive.{from_name, bytes}
use authentication_service.Abbrev.Bounds.{is_ascii, from_name-bytes}

abbrev as_is : String → String
as_is s = s

abbrev all_words : Char → Bool
all_words c = true

from_name-bytes_example :
    (t : String) × (from_name as_is as_is all_words "PT LINTAS JAYA" ≡ some t)
    × (1 ≤ bytes t)
    × (bytes t ≤ 3)
    × (is_ascii t ≡ true)
from_name-bytes_example = from_name-bytes as_is as_is all_words "PT LINTAS JAYA" (λ s h. h)
