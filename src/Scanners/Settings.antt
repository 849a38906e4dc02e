-- ===== src/Scanners/Settings.antt =====
-- The settings of the scanners' commands, their factories, and the built-in scanners:
-- internal/scanners/{trivy,snyk,wiz,clair,trivyoperator}/config.go with the factories beside them,
-- and internal/scanners/all/register.go.
use komodor_security_reporte.Prelude.{
  Option, none, some, Bool, false, ◌||◌, if◌then◌else◌, List, [], ◌∷◌, not, ◌++◌,
}
use komodor_security_reporte.Prelude.Int.{ℤ, pos}
use komodor_security_reporte.Prelude.Text.{Text, codes, text_eq, is_empty, trim_space}
use komodor_security_reporte.Prelude.Dict.{Dict}
use komodor_security_reporte.Scanners.Factory.{ScannerConfig, ScannerFactory, register_scanner}
use komodor_security_reporte.Scanners.TrivyOperator.{ReportResource, resolve_resources}

-- The settings of a command, in nanoseconds.
pub record Command : Type 0 where
  pub binary : Text
  pub timeout : ℤ

-- A scope as viper decodes it, `none` if that fails: for a command, and for Trivy Operator.
pub record ScannerScope : Type 0 where
  pub command : Option Command
  pub has_timeout : Bool
  pub resources : Option (List Text)

abbrev pub default_command_timeout : ℤ
default_command_timeout = pos 300_000_000_000

abbrev pub or_default : Text → Text → Text
or_default default binary = if is_empty binary then default else binary

-- defaultBinary of Clair
unfoldable pub default_binary : Text → Text
default_binary binary =
    if is_empty binary || text_eq binary (codes "clair") then codes "clairctl" else binary

-- parseConfig of the scanners that run a command, with the binary that each makes of a setting.
unfoldable pub parse_config : (Text → Text) → Option ScannerScope → Option Command
parse_config binary_of none =
    some (record { binary = binary_of []; timeout = default_command_timeout })
parse_config binary_of (some scope) = elim scope.command [
  | none ↦ none
  | some c ↦ some (record {
    binary = binary_of c.binary;
    timeout = if scope.has_timeout then c.timeout else default_command_timeout;
  })
]

unfoldable pub has_blank : List Text → Bool
has_blank [] = false
has_blank (name ∷ names) = is_empty (trim_space name) || has_blank names

-- parseConfig of Trivy Operator
unfoldable pub parse_resources : Option ScannerScope → Option (List Text)
unfolding has_blank
parse_resources none = some []
parse_resources (some scope) = elim scope.resources [
  | none ↦ none
  | some names ↦ if has_blank names then none else some names
]

-- The scanners, by what they are made of.
pub data Scanner : Type 0 where
  trivy snyk wiz clair : Text → Scanner
  trivy_operator : List ReportResource → Scanner

-- newScannerFactory of the scanners that run a command
unfoldable pub new_command_factory :
    (Text → Scanner) → (Text → Text) → ScannerFactory Scanner ScannerScope
unfolding parse_config
new_command_factory make binary_of config scope = elim (parse_config binary_of scope) [
  | none ↦ none
  | some c ↦ some (make c.binary, some c.timeout)
]

-- newScannerFactory of Trivy Operator, where a client of the cluster can be created.
unfoldable pub new_operator_factory : ScannerFactory Scanner ScannerScope
unfolding parse_resources resolve_resources
new_operator_factory config scope = elim (parse_resources scope) [
  | none ↦ none
  | some names ↦ elim (resolve_resources names) [
    | none ↦ none
    | some resources ↦ some (trivy_operator resources, none)
  ]
]

-- The factories that the imports register, in the order of the imports.
unfoldable pub built_in : Dict (ScannerFactory Scanner ScannerScope)
unfolding register_scanner new_command_factory new_operator_factory default_binary
built_in = register_scanner (codes "wiz") (new_command_factory wiz (or_default (codes "wiz"))) (
    register_scanner (codes "trivy-operator") new_operator_factory (
      register_scanner (codes "trivy") (new_command_factory trivy (or_default (codes "trivy"))) (
        register_scanner (codes "snyk") (new_command_factory snyk (or_default (codes "snyk")))
          (register_scanner (codes "clair") (new_command_factory clair default_binary) []))))

-- EnabledScanners of internal/config/config.go, which is printed.
unfoldable pub enabled_scanners : List ScannerConfig → List Text
enabled_scanners [] = []
enabled_scanners (scanner ∷ scanners) =
    let rest = enabled_scanners scanners in
    if not scanner.enabled
    then rest
    else (scanner.name ++ (codes " (" ++ (scanner.kind ++ codes ")"))) ∷ rest
