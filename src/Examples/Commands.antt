-- ===== src/Examples/Commands.antt =====
-- Commands as text: words, upper case, and what server/services/command_handler.py and
-- server/services/cache.py make of them, and answers in server/services/layout_cache.py.
use vivarium_connection.LayoutCache.{Layouts}
use vivarium_connection.LayoutCache.Expiry.{Distincts}
use vivarium_connection.Common.Dict.{Distinct, lookup}
use vivarium_connection.Cache.{Attributions, set_capture_attribution, consume_capture_attribution}
use vivarium_connection.Cache.Consume.{reload, consume-set_capture_attribution}
use vivarium_connection.Examples.{naive}
use vivarium_connection.Common.{◌≡◌, refl, type_error, [], ◌∷◌, ok, raised, validation_error}
use vivarium_connection.Common.Text.{Text, codes, words, upper, to_upper}
use vivarium_connection.Command.{
  pos, mqtt_publish, validate_command, check, grid_ok, in_range, parse_command, parse_tokens,
  params_from, add_param, get_param, set_param, param_of, number, digits, digits_from, negate,
  is_digit, is_letter, route_for,
}

words_test : words (codes "  m700 R3\tC5 ") ≡ codes "m700" ∷ codes "R3" ∷ codes "C5" ∷ []
unfolding words
words_test = refl

upper_test : upper (codes "m700") ≡ codes "M700"
unfolding upper
upper_test = refl

abbrev grid_test : Text
grid_test = codes " m700 r3  C12 "

validate_test :
    (validate_command grid_test 12 13
      ≡ ok (record {
        cmd = codes "M700";
        params = (b'R', pos 3) ∷ (b'C', pos 12) ∷ [];
        route = mqtt_publish;
      }))
    × (validate_command grid_test 12 12 ≡ raised validation_error)
    × (validate_command (codes "M701 C-1") 12 12 ≡ raised validation_error)
    × (validate_command (codes "M999") 12 12 ≡ raised validation_error)
    × (validate_command (codes "  ") 12 12 ≡ raised validation_error)
unfolding validate_command check grid_ok in_range parse_command parse_tokens params_from add_param
    get_param set_param param_of number digits digits_from negate is_digit is_letter route_for words
    upper to_upper
validate_test = (refl, refl, refl, refl, refl)

abbrev remembered : Attributions
remembered = reload naive (set_capture_attribution 0 "rack-1" "alice" 120 [])

consume-set_capture_attribution_example :
    consume_capture_attribution 5 "rack-1" remembered ≡ (remembered, raised type_error)
consume-set_capture_attribution_example =
    consume-set_capture_attribution naive 0 5 "rack-1" "alice" 120 [] (λ x. refl)

abbrev layouts : Layouts
layouts = ("rack-1", ("M705", record { value = "ROWS=12 COLS=7"; expiry = 10 }) ∷ []) ∷ []

layouts-Distinct : Distinct layouts
unfolding lookup
layouts-Distinct = (refl, tt)

layouts-Distincts : Distincts layouts
unfolding lookup
layouts-Distincts = ((refl, tt), tt)
