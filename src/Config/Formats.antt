-- ===== src/Config/Formats.antt =====
-- bundle/registry/v1/internal/config/config.go: the formats that the schema gives `watchNamespace`,
-- with the checks that `validateConfigWithSchema` registers for them.
use library_olm.Prelude.{String, Result, ok, err, if◌then◌else◌, ◌==◌}
use library_olm.Config.Values.{Json, null, bool, number, string, array, object}
use library_olm.Config.Schema.{format_own_namespace, format_single_namespace}

-- The errors carry the value and the install namespace.
pub data FormatError : Type 0 where
  not_a_string : FormatError
  must_be : String → String → FormatError
  must_differ : String → String → FormatError

-- A check of a string, on a value of type `any`.
abbrev check_string : (String → Result FormatError Unit) → Json → Result FormatError Unit
check_string check (string s) = check s
check_string check null = err not_a_string
check_string check (bool b) = err not_a_string
check_string check (number n) = err not_a_string
check_string check (array xs) = err not_a_string
check_string check (object m) = err not_a_string

unfoldable pub validate_own_namespace : String → Json → Result FormatError Unit
validate_own_namespace install_namespace value =
    if install_namespace == ""
    then ok tt
    else check_string
        (λ s. if s == install_namespace then ok tt else err (must_be s install_namespace)) value

unfoldable pub validate_single_namespace : String → Json → Result FormatError Unit
validate_single_namespace install_namespace value =
    if install_namespace == ""
    then ok tt
    else check_string
        (λ s. if s == install_namespace then err (must_differ s install_namespace) else ok tt) value

-- The registered check of a format's name; no format, no check.
unfoldable pub validate_format : String → String → Json → Result FormatError Unit
unfolding validate_own_namespace validate_single_namespace
validate_format format install_namespace value =
    if format == format_own_namespace
    then validate_own_namespace install_namespace value
    else if format == format_single_namespace
    then validate_single_namespace install_namespace value
    else ok tt
