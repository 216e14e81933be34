-- ===== src/Tests/Profiles.antt =====
-- Profiles and passwords.
use rconfig_sim.Base.{
  if◌then◌else◌, All, Bytes, codes, equal, ℕ, ◌*◌, ◌≡◌, refl, true, false, Option, none, some, List,
  [], ◌∷◌,
}
use rconfig_sim.Profiles.Valid.{IsSoundRule, parse_rules-IsSoundRule}
use rconfig_sim.Text.Decimal.{is_digit, value_of, unsigned, atoi}
use rconfig_sim.Server.Auth.{verdict, password_callback, AuthState}
use rconfig_sim.Server.Requests.{
  reply, start_shell, on_request, handle_session, fresh_channel, Request,
}
use rconfig_sim.Profiles.{
  cut_or, parse_kind, parse_profile, bad_pct, most, trim_percent, parse_item, parse_items,
  parse_rules, Rule,
}
use rconfig_sim.Floats.{spacing, round, too_large, pack, add, divide, less}
use rconfig_sim.Text.{
  is_space, trim_left, trim_right, trim_space, has_prefix, has_suffix, split, cut,
}
use rconfig_sim.Session.{hang_profile, refuse_profile}
use rconfig_sim.Base.Result.{ok}
use rconfig_sim.Base.Int.{ℤ}
use rconfig_sim.Fault.{one, roll, Float64, not_a_number, finite}

-- Durations are written in nanoseconds, and the percentages 50 and nan are known.
abbrev some_duration : Bytes → Option ℤ
some_duration s = atoi s

abbrev some_float : Bytes → Option Float64
some_float s =
    if equal s (codes "50")
    then some (finite false (50 * one))
    else if equal s (codes "nan")
    then some not_a_number
    else none

abbrev half_hang : Rule
half_hang = record { profile = hang_profile 9; fraction = divide (finite false (50 * one)) 100 }

parsed_rule : parse_rules some_duration some_float (codes "hang:9@50%") ≡ ok (half_hang ∷ [])
unfolding parse_rules parse_items parse_item parse_profile parse_kind cut_or cut split trim_space
    trim_left trim_right is_space trim_percent has_suffix has_prefix bad_pct less add round pack
    spacing too_large most one atoi unsigned value_of is_digit equal
parsed_rule = refl

parse_rules-IsSoundRule_example : All (IsSoundRule some_duration some_float) (half_hang ∷ [])
parse_rules-IsSoundRule_example =
    parse_rules-IsSoundRule some_duration some_float (codes "hang:9@50%") (half_hang ∷ [])
      parsed_rule

-- A percentage that is no number is let through.
parsed_nan :
    parse_rules some_duration some_float (codes "refuse@nan%")
    ≡ ok (record { profile = refuse_profile; fraction = not_a_number } ∷ [])
unfolding parse_rules parse_items parse_item parse_profile parse_kind cut_or cut split trim_space
    trim_left trim_right is_space trim_percent has_suffix has_prefix bad_pct less add divide round
    pack spacing too_large most one atoi unsigned value_of is_digit equal
parsed_nan = refl

abbrev fresh_auth : AuthState
fresh_auth = record {
  rng = record { draws = λ (n : ℕ). n; drawn = 0 };
  faults_injected = [];
  auth_attempts = [];
}

rejected : (password_callback none (codes "pw") (codes "no") fresh_auth).0 ≡ false
unfolding password_callback verdict roll equal
rejected = refl

abbrev two_shells : List Request
two_shells =
    record { kind = codes "pty-req"; want_reply = true }
    ∷ record { kind = codes "shell"; want_reply = true }
    ∷ record { kind = codes "env"; want_reply = true }
    ∷ record { kind = codes "shell"; want_reply = false }
    ∷ []

served_once : (handle_session two_shells fresh_channel).served ≡ 1
unfolding handle_session on_request reply start_shell equal
served_once = refl
