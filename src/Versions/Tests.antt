-- ===== src/Versions/Tests.antt =====
-- crates/protocol/src/version.rs: a version with a number of two digits.
use sinan.Prelude.{◌≡◌, ok, arith}
use sinan.Versions.Version.{SchemaVersion, print_version, parse_version}
use sinan.Versions.Printed.{parse_version-print_version}

abbrev later_version : SchemaVersion
later_version = record { major = 1; minor = 17 }

parse_version-print_version_example : parse_version (print_version later_version) ≡ ok later_version
parse_version-print_version_example =
    parse_version-print_version later_version (omega arith) (omega arith)
