-- ===== src/Base/Codecs.antt =====
-- What the code uses of the package go-tls-syntax: `Marshal` and `Unmarshal` at a type, and `Write`
-- and `Read` on a stream, which do the same. `none` is an error; `decode` also gives the number of
-- bytes that it read.
use Prim.Native.Nat.{ℕ}
use mathlib.Core.Path.{◌≡◌}
use mathlib.Core.Option.{Option, some}
use mathlib.Core.List.{List, ◌++◌}
use go_mls.Base.Lists.{length}

abbrev pub Bytes : Type 0
Bytes = List ℕ

pub record Codec {ℓ} (A : Type ℓ) : Type ℓ where
  pub encode : A → Option Bytes
  pub decode : Bytes → Option (A × ℕ)

-- The package reads back what it wrote, and does not look past it.
abbrev pub ReadsBack {ℓ} : {A : Type ℓ} → Codec A → Type ℓ
ReadsBack {A = A} c =
    (a : A) (d rest : Bytes) → c.encode a ≡ some d → c.decode (d ++ rest) ≡ some (a, length d)

-- The same of one value.
abbrev pub ReadsBackAt {ℓ} : {A : Type ℓ} → Codec A → A → Type ℓ
ReadsBackAt c a = (d rest : Bytes) → c.encode a ≡ some d → c.decode (d ++ rest) ≡ some (a, length d)
