-- ===== src/Command/Run.antt =====
-- RunAllowExitCodes of internal/scanners/command/runner.go. What `os/exec` does with a command is a
-- parameter: the pieces that the process writes to each output, and how it ends.
use komodor_security_reporte.Prelude.{
  ◌≡◌, ◌↔◌, ◌⊎◌, refl, inl, inr, ap, sym, arith, Bool, true, false, Bool-cases, take, List, [], ◌∷◌,
  Memᴰ, ◌*◌,
}
use komodor_security_reporte.Prelude.Int.{ℤ, pos, negsuc, pos_part, eqb_ℤ}
use komodor_security_reporte.Prelude.Text.{Text}
use komodor_security_reporte.Command.{new_limited_writer, write_all, contains_exit_code}
use komodor_security_reporte.Command.Limited.{output, write_all_lem}
use mathlib.Core.List.Memᴰ

-- The error of cmd.Run: none, an ExitError with its code, or another one.
pub data Exit : Type 0 where
  exited other_error : Exit
  exit_error : ℤ → Exit

pub record Process : Type 0 where
  pub stdout : List Text
  pub stderr : List Text
  pub exit : Exit

pub record Runner : Type 0 where
  pub stdout_limit_bytes : ℤ
  pub stderr_limit_bytes : ℤ

abbrev pub new_runner : Runner
new_runner = record {
  stdout_limit_bytes = pos (100 * 1024 * 1024);
  stderr_limit_bytes = pos (10 * 1024 * 1024);
}

-- Both outputs, and whether there is no error.
pub record Ran : Type 0 where
  pub out : Text
  pub err : Text
  pub succeeded : Bool

abbrev is_allowed : List ℤ → Exit → Bool
is_allowed allowed exited = true
is_allowed allowed other_error = false
is_allowed allowed (exit_error code) = contains_exit_code allowed code

unfoldable pub run_allow_exit_codes :
    (Text → List Text → Process) → Runner → List ℤ → Text → List Text → Ran
unfolding write_all contains_exit_code
run_allow_exit_codes exec runner allowed name arguments =
    let process = exec name arguments in
    record {
      out = (write_all process.stdout (new_limited_writer runner.stdout_limit_bytes)).1.writer;
      err = (write_all process.stderr (new_limited_writer runner.stderr_limit_bytes)).1.writer;
      succeeded = is_allowed allowed process.exit;
    }

-- Run
unfoldable pub run : (Text → List Text → Process) → Runner → Text → List Text → Ran
unfolding run_allow_exit_codes
run exec runner name arguments = run_allow_exit_codes exec runner [] name arguments

eqb_ℤ-sound : (a b : ℤ) → eqb_ℤ a b ≡ true → a ≡ b
eqb_ℤ-sound (pos m) (pos n) h = ap pos (ground arith)
eqb_ℤ-sound (pos m) (negsuc n) h = absurd (ground arith)
eqb_ℤ-sound (negsuc m) (pos n) h = absurd (ground arith)
eqb_ℤ-sound (negsuc m) (negsuc n) h = ap negsuc (ground arith)

eqb_ℤ_refl : (a : ℤ) → eqb_ℤ a a ≡ true
eqb_ℤ_refl a = ground arith

contains_exit_code-Memᴰ :
    (allowed : List ℤ) (code : ℤ) → (contains_exit_code allowed code ≡ true) ↔ Memᴰ code allowed
unfolding contains_exit_code
contains_exit_code-Memᴰ [] code = (λ h. cc h, λ m. elim m [ ])
contains_exit_code-Memᴰ (a ∷ allowed) code =
    let later = contains_exit_code-Memᴰ allowed code in
    elim (Bool-cases (eqb_ℤ a code)) [
      | inl e ↦ rw e (λ h. Memᴰ.head (sym (eqb_ℤ-sound a code e)), λ m. refl)
      | inr e ↦ rw e (
        λ h. Memᴰ.tail (later.0 h),
        λ m. elim (Memᴰ.cases_cons m) [
          | inl same ↦ cc (e, eqb_ℤ_refl a, ap (eqb_ℤ a) same)
          | inr below ↦ later.1 below
        ],
      )
    ]

same_code : (a b : ℤ) → exit_error a ≡ exit_error b → a ≡ b
same_code a b e = cc e

-- A run of a command gives the first bytes of both outputs, up to their limits, also when it fails,
-- and it succeeds just if the process ends without an error or with one of the allowed exit codes.
pub run_allow_exit_codes_lem :
    (exec : Text → List Text → Process) (runner : Runner) (allowed : List ℤ) (name : Text)
    (arguments : List Text)
    → let process = exec name arguments in
      let ran = run_allow_exit_codes exec runner allowed name arguments in
      (ran.out ≡ take (pos_part runner.stdout_limit_bytes) (output process.stdout))
      × (ran.err ≡ take (pos_part runner.stderr_limit_bytes) (output process.stderr))
      × ((ran.succeeded ≡ true) ↔ (
          (process.exit ≡ exited)
          ⊎ ((code : ℤ) × (process.exit ≡ exit_error code) × Memᴰ code allowed)))
unfolding run_allow_exit_codes
run_allow_exit_codes_lem exec runner allowed name arguments =
    let process = exec name arguments in
    (
      (write_all_lem process.stdout runner.stdout_limit_bytes).0,
      (write_all_lem process.stderr runner.stderr_limit_bytes).0,
      allowed_lem process.exit,
    )
  where
    allowed_lem :
        (exit : Exit)
        → (is_allowed allowed exit ≡ true)
          ↔ ((exit ≡ exited) ⊎ ((code : ℤ) × (exit ≡ exit_error code) × Memᴰ code allowed))
    allowed_lem exited = (λ h. inl refl, λ h. refl)
    allowed_lem other_error = (λ h. cc h, λ h. elim h [ inl e ↦ cc e | inr m ↦ cc m.1 ])
    allowed_lem (exit_error code) = (
      λ h. inr (code, refl, (contains_exit_code-Memᴰ allowed code).0 h),
      λ h. elim h [
        | inl e ↦ cc e
        | inr m ↦ (contains_exit_code-Memᴰ allowed code).1 (Memᴰ.cast (same_code code m.0 m.1) m.2)
      ],
    )
