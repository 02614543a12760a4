-- ===== src/Format.antt =====
-- Amounts and dates as text: frontend/src/lib/format.ts. `parseEther` and `formatEther` of viem are
-- parameters.
pub mod Decimal
use shared_deposit_monad.Base.{
  ℕ, zero, suc, ◌+◌, ◌-◌, ◌*◌, Bool, true, false, not, ◌&&◌, ◌||◌, Option, none, some, List, [],
  ◌∷◌, ◌++◌, Text, txt, if◌then◌else◌, ltb, leb, ◌==◌, length, take,
}

-- The white space that `trim` removes.
unfoldable pub is_space : ℕ → Bool
is_space c =
    (leb 9 c && leb c 13)
    || (c == 32
        || (c == 160
            || (c == 5760
                || ((leb 8192 c && leb c 8202)
                    || (c == 8232
                        || (c == 8233
                            || (c == 8239 || (c == 8287 || (c == 12288 || c == 65279)))))))))

unfoldable pub trim_start : Text → Text
unfolding is_space
trim_start [] = []
trim_start (c ∷ s) = if is_space c then trim_start s else c ∷ s

unfoldable pub trim_end : Text → Text
unfolding is_space
trim_end [] = []
trim_end (c ∷ s) = elim (trim_end s) [ [] ↦ if is_space c then [] else c ∷ [] | d ∷ t ↦ c ∷ d ∷ t ]

-- `s.trim()`
unfoldable pub trim : Text → Text
unfolding trim_start trim_end
trim s = trim_end (trim_start s)

unfoldable pub is_digit : ℕ → Bool
is_digit c = leb 48 c && leb c 57

unfoldable pub all_digits : Text → Bool
unfolding is_digit
all_digits [] = true
all_digits (c ∷ s) = is_digit c && all_digits s

-- The expression after the first digit: more digits, or a point and one to eighteen digits.
unfoldable pub decimal_rest : Text → Bool
unfolding is_digit all_digits
decimal_rest [] = true
decimal_rest (c ∷ s) =
    let more = decimal_rest s in
    if is_digit c
    then more
    else c == 46 && (all_digits s && (leb 1 (length s) && leb (length s) 18))

-- `DECIMAL_INPUT.test(s)`
unfoldable pub decimal_input : Text → Bool
unfolding is_digit decimal_rest
decimal_input [] = false
decimal_input (c ∷ s) = is_digit c && decimal_rest s

abbrev pub decimal_message : Text
decimal_message = txt "enter a plain decimal MON amount (up to 18 decimal places)"

module _ (parse_ether : Text → ℕ) where
  -- `none` is the thrown error, with the text `decimal_message`.
  unfoldable pub mon_to_wei : Text → Option ℕ
  unfolding trim decimal_input
  mon_to_wei input = if decimal_input (trim input) then some (parse_ether (trim input)) else none

-- `s.slice(-n)`
unfoldable pub take_last : ℕ → Text → Text
take_last n [] = []
take_last n (c ∷ s) = if leb (suc (length s)) n then c ∷ s else take_last n s

unfoldable pub short_address : Text → Text
unfolding take_last
short_address address = take 6 address ++ (8230 ∷ take_last 4 address)

abbrev pub past_message : Text
past_message = txt "The funding deadline is in the past. Choose a future date and time."

abbrev pub soon_message : Text
soon_message =
    txt
      "The funding deadline is less than 24 hours away. Give every participant enough time to accept and fund - a deadline at least 48 hours out is recommended."

-- The hours are a fraction: below 24 is below 86400 seconds.
unfoldable pub funding_deadline_warning : ℕ → ℕ → Option Text
funding_deadline_warning deadline now =
    if leb deadline now
    then some past_message
    else if ltb (deadline - now) (24 * 3600)
    then some soon_message
    else none
