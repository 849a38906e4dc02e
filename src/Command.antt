-- ===== src/Command.antt =====
-- The limited output of internal/scanners/command/runner.go. The underlying writer is a
-- bytes.Buffer, which takes all that it is given and returns no error; `os/exec` is not modelled.
pub mod Limited
pub mod Run
mod Tests
use komodor_security_reporte.Prelude.{
  ℕ, ◌+◌, ◌-◌, ◌++◌, if◌then◌else◌, length, take, List, [], ◌∷◌, Bool, true, false,
}
use komodor_security_reporte.Prelude.Int.{ℤ, pos, pos_part, leb_ℤ, eqb_ℤ}
use komodor_security_reporte.Prelude.Text.{Text}

pub record LimitedWriter : Type 0 where
  pub writer : Text
  pub limit : ℤ
  pub seen : ℕ

abbrev pub new_limited_writer : ℤ → LimitedWriter
new_limited_writer limit = record { writer = []; limit = limit; seen = 0 }

-- The number of bytes that Write reports, which returns no error, and the writer.
unfoldable pub write : Text → LimitedWriter → ℕ × LimitedWriter
write p w =
    let to_write = take (pos_part w.limit - w.seen) p in
    if leb_ℤ w.limit (pos w.seen)
    then (length p, w)
    else (length p, record w { writer = w.writer ++ to_write; seen = w.seen + length to_write })

-- Writes in order: the numbers that they report, and the writer.
unfoldable pub write_all : List Text → LimitedWriter → List ℕ × LimitedWriter
unfolding write
write_all [] w = ([], w)
write_all (p ∷ ps) w = let (n, w') = write p w in let (ns, out) = write_all ps w' in (n ∷ ns, out)

unfoldable pub contains_exit_code : List ℤ → ℤ → Bool
contains_exit_code [] exit_code = false
contains_exit_code (allowed ∷ codes) exit_code =
    let rest = contains_exit_code codes exit_code in if eqb_ℤ allowed exit_code then true else rest
