-- ===== src/Prelude/Numerals.antt =====
-- Decimal numbers as texts, and `make_url` of frontik/util/__init__.py for one numeric argument.
use Prim.Native.Nat.{ℕ, zero, suc, ◌+◌, ◌-◌, ◌*◌, ◌/◌, ◌%◌}
use Prim.Native.Char.{code}
use Prim.Native.String.{String}
use mathlib.Core.Bool.{◌&&◌}
use mathlib.Core.Option.{Option, none, some}
use frontik.Prelude.Tests.{ltb, leb, if◌then◌else◌}
use frontik.Prelude.Texts.{◌+++◌, has_char, is_empty}

digits_value : ℕ → String → Option ℕ
digits_value n String.[] = some n
digits_value n (String.◌∷◌ c s) =
    if leb b'0' (code c) && leb (code c) b'9'
    then digits_value (n * 10 + (code c - b'0')) s
    else none

-- `int(s)`, for a text of digits; any other text is an error
unfoldable pub parse_decimal : String → Option ℕ
unfolding digits_value
parse_decimal s = if is_empty s then none else digits_value 0 s

nth_text : ℕ → String → String
nth_text i String.[] = ""
nth_text zero (String.◌∷◌ c s) = String.◌∷◌ c ""
nth_text (suc i) (String.◌∷◌ c s) = nth_text i s

decimal_from : ℕ → ℕ → String → String
decimal_from zero n text = text
decimal_from (suc fuel) n text =
    let text' = nth_text (n % 10) "0123456789" +++ text in
    let rest = decimal_from fuel (n / 10) text' in if ltb n 10 then text' else rest

-- `str(n)`: a number has no more digits than its value plus one
unfoldable pub decimal : ℕ → String
unfolding decimal_from nth_text
decimal n = decimal_from (suc n) n ""

-- `make_url(base, name=value)`, for a value that is not changed by `urlencode`
unfoldable pub make_url : String → String → String → String
make_url base name value =
    base +++ ((if has_char b'?' base then "&" else "?") +++ (name +++ ("=" +++ value)))
