-- ===== src/Format.antt =====
-- apps/web/src/lib/utils/format.ts, where it needs no floating point and no locale: whole seconds,
-- milliseconds since a date, whole percentages and the truncation of texts.
pub mod Laws
use xp_panel.Shared.{
  ℤ, pos, negsuc, ℕ, zero, suc, ◌+◌, ◌-◌, ◌*◌, ◌/◌, ◌%◌, ltb, leb, Text, codes, Bool, true, false,
  List, [], ◌∷◌, ◌++◌, length, if◌then◌else◌, slice,
}

-- The decimal digits of a number; its own size is fuel enough.
unfoldable pub digits_from : ℕ → ℕ → Text → Text
digits_from zero n acc = acc
digits_from (suc fuel) n acc =
    let more = digits_from fuel (n / 10) ((48 + n % 10) ∷ acc) in
    if ltb n 10 then (48 + n) ∷ acc else more

unfoldable pub decimal : ℕ → Text
unfolding digits_from
decimal n = digits_from (suc n) n []

unfoldable pub format_duration : ℕ → Text
unfolding decimal
format_duration seconds =
    if ltb seconds 60
    then decimal seconds ++ codes "s"
    else (if ltb seconds 3600
        then decimal (seconds / 60) ++ codes "m " ++ decimal (seconds % 60) ++ codes "s"
        else decimal (seconds / 3600) ++ codes "h " ++ decimal (seconds % 3600 / 60) ++ codes "m")

-- For the milliseconds between the date and now, which are negative for a date to come.
unfoldable pub format_relative : Text → ℤ → Text
unfolding decimal
format_relative date (negsuc n) = codes "just now"
format_relative date (pos ms) =
    if ltb ms 60000
    then codes "just now"
    else (if ltb ms 3600000
        then decimal (ms / 60000) ++ codes "m ago"
        else (if ltb ms 86400000
            then decimal (ms / 3600000) ++ codes "h ago"
            else (if ltb ms 604800000 then decimal (ms / 86400000) ++ codes "d ago" else date)))

-- `maxLen - 3`.
abbrev minus_three : ℕ → ℤ
minus_three zero = negsuc 2
minus_three (suc zero) = negsuc 1
minus_three (suc (suc zero)) = negsuc 0
minus_three (suc (suc (suc n))) = pos n

unfoldable pub truncate : Text → ℕ → Text
truncate str max_len =
    if leb (length str) max_len then str else slice str (pos 0) (minus_three max_len) ++ codes "..."

unfoldable pub usage_color : ℕ → Text
usage_color pct =
    if ltb pct 60
    then codes "text-green-500"
    else (if ltb pct 80 then codes "text-yellow-500" else codes "text-red-500")

unfoldable pub usage_bg_color : ℕ → Text
usage_bg_color pct =
    if ltb pct 60
    then codes "bg-green-500"
    else (if ltb pct 80 then codes "bg-yellow-500" else codes "bg-red-500")
