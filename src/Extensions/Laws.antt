-- ===== src/Extensions/Laws.antt =====
-- `Add`, `Has` and `Find` together.
use go_mls.Base.{
  ℕ, ◌≡◌, ◌≢◌, refl, ap, sym, ◌∙◌, arith, false, Option, none, some, [], ◌∷◌, Bytes, ReadsBack, ok,
  ◌==◌, ◌||◌,
}
use mathlib.Core.List.{append-nil}
use go_mls.Extensions.{ExtensionList, ExtensionBody, found, put, add_data, add, has, read_all, find}

-- What a successful `Add` does: it puts the encoding into the list.
add-eq-ok :
    {B : Type 0} (body : ExtensionBody B) (el : ExtensionList) (src : B) {out : ExtensionList}
    → add body el src ≡ ok out
    → (d : Bytes) × (body.codec.encode src ≡ some d) × (out ≡ put body.type d el)
unfolding add
add-eq-ok body el src e = go (body.codec.encode src) e
  where
    go :
        (o : Option Bytes) {out : ExtensionList}
        → add_data body.type el o ≡ ok out
        → (d : Bytes) × (o ≡ some d) × (out ≡ put body.type d el)
    go none e = unfold add_data in cc
    go (some d) e = (d, refl, unfold add_data in cc)

find-put :
    {B : Type 0} (body : ExtensionBody B) (d : Bytes) (el : ExtensionList)
    → find body (put body.type d el) ≡ read_all d (body.codec.decode d)
unfolding find put
find-put body d [] = ground arith
find-put body d (e ∷ es) = ground (arith, find-put body d es)

find-put_other :
    {B : Type 0} (body : ExtensionBody B) (t : ℕ) (d : Bytes) (el : ExtensionList)
    → t ≢ body.type
    → find body (put t d el) ≡ find body el
unfolding find put
find-put_other body t d [] h = ground arith
find-put_other body t d (e ∷ es) h = ground (arith, find-put_other body t d es)

-- Where the body is read back, `Find` after an `Add` finds what was added, whether `Add` replaced an
-- entry or appended one.
pub find-add :
    {B : Type 0} (body : ExtensionBody B) (el out : ExtensionList) (src : B)
    → ReadsBack body.codec
    → add body el src ≡ ok out
    → find body out ≡ found src
find-add body el out src law e =
    let (d, enc, eq) = add-eq-ok body el src e in
    let whole = law src d [] enc in
    rw (eq, find-put body d el)
      (ap (read_all d) (ap body.codec.decode (sym (append-nil d)) ∙ whole)
        ∙ unfold read_all in ground arith)

-- An `Add` of one type that succeeds leaves what `Find` reads of any other type as it was.
pub find-add_other :
    {B C : Type 0} (body : ExtensionBody B) (other : ExtensionBody C) (el out : ExtensionList)
    (src : B)
    → body.type ≢ other.type
    → add body el src ≡ ok out
    → find other out ≡ find other el
find-add_other body other el out src h e =
    let (d, enc, eq) = add-eq-ok body el src e in rw eq (find-put_other other body.type d el h)

has-put : (t u : ℕ) (d : Bytes) (el : ExtensionList) → has (put t d el) u ≡ (t == u) || has el u
unfolding has put
has-put t u d [] = ground arith
has-put t u d (e ∷ es) = ground (arith, has-put t u d es)

-- No type stands in the list twice.
abbrev pub IsUnique : ExtensionList → Type 0
IsUnique [] = Unit
IsUnique (e ∷ es) = (has es e.extension_type ≡ false) × IsUnique es

put-IsUnique : (t : ℕ) (d : Bytes) (el : ExtensionList) → IsUnique el → IsUnique (put t d el)
unfolding put
put-IsUnique t d [] u = (unfold has in refl, tt)
put-IsUnique t d (e ∷ es) u =
    ground (arith, has-put t e.extension_type d es, put-IsUnique t d es u.1)

-- An `Add` that succeeds keeps a list without repeated types so, and afterwards the list has the
-- types that it had and the new one.
pub add-IsUnique :
    {B : Type 0} (body : ExtensionBody B) (el out : ExtensionList) (src : B)
    → IsUnique el
    → add body el src ≡ ok out
    → IsUnique out × ((u : ℕ) → has out u ≡ (body.type == u) || has el u)
add-IsUnique body el out src h e =
    let (d, enc, eq) = add-eq-ok body el src e in
    rw eq (put-IsUnique body.type d el h, λ u. has-put body.type u d el)
