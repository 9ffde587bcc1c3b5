-- ===== src/Config/Examples.antt =====
-- Examples of the theorems on configurations: one variable is set, and a duration.
use squiddish.Prelude.{◌*◌, ◌%◌, ◌^◌, ◌≡◌, ◌++◌, arith, refl, Option, none, some, if◌then◌else◌}
use squiddish.Text.{Bytes, codes, bytes_eq, uppercase, trim, parse_uint}
use squiddish.Samples.Process.{platform_lib}
use squiddish.Config.{Config, from_vars, default}
use squiddish.Config.Quantity.{parse_size, parse_duration}
use squiddish.Config.Quantity.Durations.{parse_duration-print_uint}
use squiddish.Text.Decimal.{print_uint}
use squiddish.Config.Valid.{IsPositive, from_vars-IsPositive}

abbrev get_var : Bytes → Option Bytes
get_var name = if bytes_eq name (codes "SQUIDDISH_DISK_SIZE") then some (codes "512") else none

abbrev config : Config platform_lib
config = let d = default platform_lib in record d { cache = record (d.cache) { disk_size = 512 } }

from_vars-IsPositive_example : IsPositive platform_lib config
unfolding from_vars bytes_eq parse_size trim uppercase parse_uint
from_vars-IsPositive_example = from_vars-IsPositive platform_lib get_var config refl

parse_duration-print_uint_example :
    (parse_duration (print_uint 7) ≡ some 7)
    × (parse_duration (print_uint 7 ++ codes "s") ≡ some 7)
    × (parse_duration (print_uint 7 ++ codes "m") ≡ some ((7 * 60) % 2 ^ 64))
    × (parse_duration (print_uint 7 ++ codes "h") ≡ some ((7 * 3600) % 2 ^ 64))
    × (parse_duration (print_uint 7 ++ codes "d") ≡ some ((7 * 86400) % 2 ^ 64))
parse_duration-print_uint_example = parse_duration-print_uint 7 (omega arith)
