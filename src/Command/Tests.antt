-- ===== src/Command/Tests.antt =====
-- A process whose output is cut within its second piece.
use komodor_security_reporte.Prelude.{◌≡◌, [], ◌∷◌, take, ◌↔◌, ◌⊎◌, Memᴰ}
use komodor_security_reporte.Prelude.Int.{pos}
use komodor_security_reporte.Prelude.Text.{codes}
use komodor_security_reporte.Command.{Text, List, true, ℤ}
use komodor_security_reporte.Command.Limited.{output}
use komodor_security_reporte.Command.Run.{
  Runner, run_allow_exit_codes, Process, exit_error, exited, run_allow_exit_codes_lem,
}

-- A process that ends with the exit code 1, which is allowed.
abbrev exec : Text → List Text → Process
exec name arguments = record {
  stdout = codes "ab" ∷ codes "cde" ∷ [];
  stderr = [];
  exit = exit_error (pos 1);
}

abbrev runner : Runner
runner = record { stdout_limit_bytes = pos 3; stderr_limit_bytes = pos 10 }

run_allow_exit_codes_example :
    let ran = run_allow_exit_codes exec runner (pos 1 ∷ []) (codes "snyk") [] in
    (ran.out ≡ take 3 (output (codes "ab" ∷ codes "cde" ∷ [])))
    × (ran.err ≡ take 10 (output []))
    × ((ran.succeeded ≡ true) ↔ (
        (exit_error (pos 1) ≡ exited)
        ⊎ ((code : ℤ) × (exit_error (pos 1) ≡ exit_error code) × Memᴰ code (pos 1 ∷ []))))
run_allow_exit_codes_example = run_allow_exit_codes_lem exec runner (pos 1 ∷ []) (codes "snyk") []
