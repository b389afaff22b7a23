-- ===== src/Entities/Primitives.antt =====
-- packages/core/src/entities/types.ts: the schemas of the branded texts and of units, as tests.
use nginx_admin.Common.{
  ℕ, Bool, true, not, ◌&&◌, ◌||◌, Option, none, some, Text, text, leb, ◌+◌, ◌==◌, truthy,
}
use nginx_admin.Regex.{
  Regex, char, seq, star, one_of, within, literal, optional, up_to, plus, whole, test,
}
use nginx_admin.Secrets.{contains_secret_like_value}

abbrev pub is_letter : ℕ → Bool
is_letter c = within b'a' b'z' c || within b'A' b'Z' c

abbrev pub is_digit : ℕ → Bool
is_digit c = within b'0' b'9' c

abbrev pub is_alphanumeric : ℕ → Bool
is_alphanumeric c = is_letter c || is_digit c

-- `[a-zA-Z0-9]([a-zA-Z0-9-]{0,61}[a-zA-Z0-9])?\.`
unfoldable pub domain_label : Regex
domain_label = seq (char is_alphanumeric) (
    seq
      (optional
        (seq (up_to 61 (char (λ c. is_alphanumeric c || c == b'-'))) (char is_alphanumeric)))
      (char (λ c. c == b'.')))

unfoldable pub domain_body : Regex
unfolding domain_label plus
domain_body = seq (plus domain_label) (seq (char is_letter) (plus (char is_letter)))

unfoldable pub domain_schema : Text → Bool
unfolding domain_body whole test
domain_schema s = test (whole domain_body) s

-- The number that `PortSchema` receives; its conversion of texts is not modelled.
unfoldable pub port_schema : ℕ → Bool
port_schema n = leb 1 n && leb n 65535

-- `[a-zA-Z0-9_.-]`
abbrev pub is_path_char : ℕ → Bool
is_path_char c = is_alphanumeric c || one_of (text "_.-") c

unfoldable pub unix_path_body : Regex
unfolding plus
unix_path_body = seq (literal (text "/")) (
    optional
      (seq (plus (char is_path_char)) (star (seq (literal (text "/")) (plus (char is_path_char))))))

unfoldable pub unix_path_schema : Text → Bool
unfolding unix_path_body whole test
unix_path_schema s = test (whole unix_path_body) s || not (truthy s)

-- `\/[a-zA-Z0-9_./-]*`
unfoldable pub url_path_body : Regex
url_path_body = seq (literal (text "/")) (star (char (λ c. is_path_char c || c == b'/')))

unfoldable pub url_path_schema : Text → Bool
unfolding url_path_body whole test
url_path_schema s = test (whole url_path_body) s

-- A class of ASCII letters under the flag `i` alone.
abbrev either_case : Text → ℕ → Bool
either_case s c = one_of s c || leb b'A' c && leb c b'Z' && one_of s (c + 32)

size_unit_body : Regex
unfolding plus
size_unit_body = seq (plus (char is_digit)) (char (either_case (text "kmg")))

unfoldable pub size_unit_schema : Text → Bool
unfolding size_unit_body whole test
size_unit_schema s = test (whole size_unit_body) s

time_unit_body : Regex
unfolding plus
time_unit_body = seq (plus (char is_digit)) (char (either_case (text "smhd")))

unfoldable pub time_unit_schema : Text → Bool
unfolding time_unit_body whole test
time_unit_schema s = test (whole time_unit_body) s

-- What `.` does not match.
abbrev is_line_terminator : ℕ → Bool
is_line_terminator c = c == 10 || c == 13 || c == 0x2028 || c == 0x2029

proxy_target_body : Regex
unfolding plus
proxy_target_body =
    seq
      (optional
        (seq (literal (text "http")) (seq (optional (literal (text "s"))) (literal (text "://")))))
      (seq (plus (char (λ c. is_alphanumeric c || one_of (text ".-") c))) (
        seq (optional (seq (literal (text ":")) (plus (char is_digit))))
          (optional (seq (literal (text "/")) (star (char (λ c. not (is_line_terminator c))))))))

-- `.optional()`
abbrev pub optionally : (Text → Bool) → Option Text → Bool
optionally schema none = true
optionally schema (some s) = schema s

unfoldable pub proxy_target_schema : Option Text → Bool
unfolding proxy_target_body whole test contains_secret_like_value
proxy_target_schema =
    optionally (λ s. test (whole proxy_target_body) s && not (contains_secret_like_value s))
