-- ===== src/Encoding/Words.antt =====
-- strings.ToLower and strings.Contains, for classifyReason of cmd/worker/main.go, and the prefix test
-- of cmd/fake-receiver/main.go. Of the letters beyond ASCII, ToLower is written out for the one whose
-- lower case is an ASCII letter of the words that classifyReason looks for.
use Prim.Native.String.{String, [], ◌∷◌, char_at, find, len}
use Prim.Native.Char.{Char, code}
use harbor_hook.Common.{ℕ, ◌-◌, Bool, ◌&&◌, leb, eqb, if◌then◌else◌}

-- U+0130, whose lower case is i
abbrev dotted_i : ℕ
dotted_i = 304

abbrev lower : Char → Char
lower c =
    if leb 65 (code c) && leb (code c) 90
    then char_at "abcdefghijklmnopqrstuvwxyz" (code c - 65)
    else if eqb (code c) dotted_i
    then char_at "i" 0
    else c

-- strings.ToLower
unfoldable pub to_lower : String → String
to_lower [] = []
to_lower (c ∷ s) = lower c ∷ to_lower s

-- strings.Contains(s, t)
unfoldable pub contains : String → String → Bool
contains s t = leb (find s t) (len s)
