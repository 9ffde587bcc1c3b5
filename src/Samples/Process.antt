-- ===== src/Samples/Process.antt =====
-- The parsers of Rust's library as functions that know few texts.
use squiddish.Prelude.{refl, true, none, arith}
use squiddish.Text.{Bytes, codes}
use squiddish.Cache.Files.{done, failed}
use squiddish.Config.{Platform}

-- no text is a number with a fraction
abbrev pub platform_lib : Platform
platform_lib = record {
  SocketAddr = Bytes;
  floats = record {
    F64 = Unit;
    parse_f64 = λ s. none;
    is_nonneg = λ x. true;
    is_finite = λ x. true;
    scaled = λ x n. 0;
    scaled-le = λ x n. omega arith;
  };
  parse_addr = λ s. done s;
  parse_bool = λ s. failed (codes "provided string was not `true` or `false`");
  parse_usize = λ s. failed (codes "invalid digit found in string");
  usize_max = 18446744073709551615;
  default_addr = codes "127.0.0.1:3128";
  parse-default_addr = refl;
}
