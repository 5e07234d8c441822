-- ===== src/Common/Text.antt =====
-- Optional texts, as the services test them.
use Prim.Native.String.{String}
use text.Mathlib.Text.{◌==◌ as str_eq}
use build_affiliate.Common.{Bool, false, Option, none, some, not}

-- `!s` is false for a text that is there and is not empty.
abbrev pub is_truthy : Option String → Bool
is_truthy none = false
is_truthy (some s) = not (str_eq s "")

-- `=` of a nullable column with a text.
abbrev pub is_text : String → Option String → Bool
is_text k none = false
is_text k (some s) = str_eq s k
