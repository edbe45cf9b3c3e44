-- ===== src/Common/Mime.antt =====
-- `textproto.CanonicalMIMEHeaderKey`: the canonical spelling of a header's name.
use Prim.Native.Nat.{ℕ, ◌+◌, ◌-◌}
use mathlib.Core.Bool.{Bool, true, false, ◌&&◌, ◌||◌}
use mathlib.Core.List.{[], ◌∷◌}
use blackbox_exporter_with_g.Common.Tests.{◌==◌, ℕ_eq, leb, if◌then◌else◌}
use blackbox_exporter_with_g.Common.Lists.{all}
use blackbox_exporter_with_g.Common.Text.{Bytes}

abbrev is_upper : ℕ → Bool
is_upper c = leb b'A' c && leb c b'Z'

abbrev is_lower : ℕ → Bool
is_lower c = leb b'a' c && leb c b'z'

abbrev is_digit : ℕ → Bool
is_digit c = leb b'0' c && leb c b'9'

-- The punctuation of a token (RFC 7230).
abbrev is_mark : ℕ → Bool
is_mark c =
    c == b'!'
    || c == b'#'
    || c == b'$'
    || c == b'%'
    || c == b'&'
    || c == 39
    || c == b'*'
    || c == b'+'
    || c == b'-'
    || c == b'.'
    || c == b'^'
    || c == b'_'
    || c == b'`'
    || c == b'|'
    || c == b'~'

abbrev is_token_byte : ℕ → Bool
is_token_byte c = is_upper c || is_lower c || is_digit c || is_mark c

-- A letter is a capital at the start and after a dash.
abbrev recase : Bool → ℕ → ℕ
recase true c = if is_lower c then c - 32 else c
recase false c = if is_upper c then c + 32 else c

abbrev recase_all : Bool → Bytes → Bytes
recase_all start [] = []
recase_all start (c ∷ s) = recase start c ∷ recase_all (c == b'-') s

unfoldable pub canonical_key : Bytes → Bytes
canonical_key s = if all is_token_byte s then recase_all true s else s
