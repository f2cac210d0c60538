-- ===== src/Base/Text.antt =====
-- `str.encode("utf-8")`: one to four bytes for each code point. A text of this model has no lone
-- surrogates, so the encoding never fails.
use Prim.Native.Nat.{ℕ, ◌+◌, ◌/◌, ◌%◌, ◌<◌}
use Prim.Native.Char.{Char, char, code}
use Prim.Native.String.{String}
use mathlib.Core.List.{[], ◌∷◌, ◌++◌}
use native.Mathlib.Omega.{arith}
use what_a_secure_app_should.Base.Lists.{All-append}
use what_a_secure_app_should.Base.Tests.{ltb, if◌then◌else◌}
use what_a_secure_app_should.Base.Bytes.{Bytes, IsByte, IsBytes}

unfoldable pub encode_char : ℕ → Bytes
encode_char c =
    if ltb c 0x80
    then c ∷ []
    else if ltb c 0x800
    then (0xC0 + c / 64) ∷ (0x80 + c % 64) ∷ []
    else if ltb c 0x10000
    then (0xE0 + c / 4096) ∷ (0x80 + c / 64 % 64) ∷ (0x80 + c % 64) ∷ []
    else (0xF0 + c / 262144) ∷ (0x80 + c / 4096 % 64) ∷ (0x80 + c / 64 % 64) ∷ (0x80 + c % 64) ∷ []

unfoldable pub utf8 : String → Bytes
unfolding encode_char
utf8 String.[] = []
utf8 (String.◌∷◌ c s) = encode_char (code c) ++ utf8 s

code_bound : (c : Char) → code c < 0x110000
code_bound (char n h) = ground arith

encode_char-IsBytes : (c : ℕ) → c < 0x110000 → IsBytes (encode_char c)
unfolding encode_char
encode_char-IsBytes c h = ground arith

pub utf8-IsBytes : (s : String) → IsBytes (utf8 s)
unfolding utf8
utf8-IsBytes String.[] = tt
utf8-IsBytes (String.◌∷◌ c s) =
    All-append IsByte (encode_char (code c)) (utf8 s) (encode_char-IsBytes (code c) (code_bound c))
      (utf8-IsBytes s)
