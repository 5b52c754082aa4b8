-- ===== src/Base.antt =====
-- The names that the modules share: the libraries', passed on, and those of the children.
mod Tests
mod Lists
mod Errors
mod Words
mod Codecs
mod Text
mod Maps
mod ByteTests
pub mod Bits
pub use Tests.*
pub use Lists.*
pub use Errors.*
unfoldable pub use Errors.{and_then}
pub use Words.*
pub use Codecs.*
pub use Text.*
unfoldable pub use Maps.{lookup, insert, delete}
unfoldable pub use ByteTests.{bytes_eq}
pub use ByteTests.{bytes_eq_refl, bytes_eq→eq}
pub use Maps.{lookup-insert, lookup-delete}
pub use Prim.Native.Nat.{ℕ, zero, suc, ◌+◌, ◌-◌, ◌*◌, ◌/◌, ◌%◌, ◌^◌, ◌≤◌, ◌<◌}
pub use Prim.Native.Nat.{bit_and, bit_or, bit_xor}
pub use mathlib.Core.Path.{◌≡◌, refl, sym, ap, subst, ◌∙◌}
pub use mathlib.Core.Logic.{◌≢◌, ◌↔◌, ◌⊎◌, inl, inr}
pub use mathlib.Core.Bool.{Bool, true, false, not, ◌&&◌, ◌||◌}
pub use mathlib.Core.Option.{Option, none, some}
pub use mathlib.Core.List.{List, [], ◌∷◌, ◌++◌, map}
pub use native.Mathlib.Omega.{arith}
