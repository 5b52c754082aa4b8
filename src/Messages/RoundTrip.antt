-- ===== src/Messages/RoundTrip.antt =====
-- `MarshalTLS` and `UnmarshalTLS` of proposals.
use go_mls.Base.{
  ℕ, ◌+◌, ◌≡◌, refl, ap, sym, ◌∙◌, arith, some, [], ◌∷◌, ◌++◌, length, length-append, Bytes, Codec,
  ReadsBack, ReadsBackAt, ok, >>=-eq-ok,
}
use mathlib.Core.List.{append_assoc}
use go_mls.KeyPackage.{or_error}
use go_mls.KeyPackage.Signing.{or_error-eq-ok}
use go_mls.Messages.{
  Proposal, AddProposal, UpdateProposal, RemoveProposal, ProposalCodecs, added, updated,
  removed_member, proposal_type, write_behind, read_at, drop, write_member, read_member,
  marshal_proposal, unmarshal_proposal,
}

-- Each part of a proposal is read back.
pub record Faithful (c : ProposalCodecs) : Type 0 where
  pub tag : ReadsBack c.tag
  pub add : ReadsBack c.add
  pub update : ReadsBack c.update
  pub remove : ReadsBack c.remove

drop-append : (b rest : Bytes) → drop (length b) (b ++ rest) ≡ rest
unfolding drop
drop-append [] rest = refl
drop-append (x ∷ b) rest = drop-append b rest

read_by :
    {A : Type 0} (c : Codec A) (data' : Bytes) (position n : ℕ) (a : A)
    → c.decode (drop position data') ≡ some (a, n)
    → read_at c data' position ≡ ok (a, position + n)
unfolding read_at
read_by c data' position n a e = rw (read_at, e) refl

-- What stands behind `b` is read from there.
pub read_behind :
    {A : Type 0} (c : Codec A) (b d rest : Bytes) (a : A)
    → c.decode (d ++ rest) ≡ some (a, length d)
    → read_at c ((b ++ d) ++ rest) (length b) ≡ ok (a, length (b ++ d))
read_behind c b d rest a e =
    read_by c ((b ++ d) ++ rest) (length b) (length d) a
      (ap c.decode (ap (drop (length b)) (append_assoc b d rest) ∙ drop-append b (d ++ rest)) ∙ e)
    ∙ ap (λ n. ok (a, n)) (sym (length-append b d))

read_tag :
    (c : Codec ℕ) (b d rest : Bytes) (t : ℕ)
    → ReadsBack c
    → c.encode t ≡ some b
    → read_at c ((b ++ d) ++ rest) 0 ≡ ok (t, length b)
unfolding drop
read_tag c b d rest t law e =
    read_by c ((b ++ d) ++ rest) 0 (length b) t
      (ap c.decode (append_assoc b d rest) ∙ law t b (d ++ rest) e)
    ∙ ap (λ (n : ℕ). ok (t, n)) (omega arith)

module _ (tags : Codec ℕ) (tag_law : ReadsBack tags) where
  marshalled :
      {A : Type 0} (k : Codec A) (b out : Bytes) (a : A)
      → ReadsBackAt k a
      → write_behind k b (some a) ≡ ok out
      → (d : Bytes) × (out ≡ b ++ d)
        × ((rest : Bytes) → read_at k (out ++ rest) (length b) ≡ ok (a, length out))
  unfolding write_behind
  marshalled k b out a reads e =
      let (d, enc, same) = >>=-eq-ok (or_error (k.encode a)) _ e in
      let whole : out ≡ b ++ d = cc in
      (d, whole, λ rest. rw whole (read_behind k b d rest a (reads d rest (or_error-eq-ok _ enc))))

  -- The tag, and then the member behind it.
  pub both_parts :
      {A : Type 0} (k : Codec A) (t : ℕ) (b out : Bytes) (a : A) (rest : Bytes)
      → ReadsBackAt k a
      → or_error (tags.encode t) ≡ ok b
      → write_behind k b (some a) ≡ ok out
      → (read_at tags (out ++ rest) 0 ≡ ok (t, length b))
        × (read_at k (out ++ rest) (length b) ≡ ok (a, length out))
  both_parts k t b out a rest reads tag e =
      let (d, whole, read) = marshalled k b out a reads e in
      (rw whole (read_tag tags b d rest t tag_law (or_error-eq-ok _ tag)), read rest)

-- A proposal with exactly one member.
pub data One : Proposal → Type 0 where
  one_add : (a : AddProposal) → One (added a)
  one_update : (u : UpdateProposal) → One (updated u)
  one_remove : (r : RemoveProposal) → One (removed_member r)

-- Where the parts are read back, a proposal with exactly one member is read back from what was
-- written of it, with any bytes behind, and as many bytes are read as were written.
pub unmarshal-marshal :
    (c : ProposalCodecs) (p : Proposal) (out rest : Bytes)
    → Faithful c
    → One p
    → marshal_proposal c p ≡ ok out
    → unmarshal_proposal c (out ++ rest) ≡ ok (p, length out)
unfolding marshal_proposal unmarshal_proposal proposal_type write_member read_member
unmarshal-marshal c p out rest law (one_add a) e =
    let (b, tag, e1) = >>=-eq-ok (or_error (c.tag.encode 1)) _ e in
    let (first, second) = both_parts c.tag law.tag c.add 1 b out a rest (law.add a) tag e1 in
    rw (first, second) refl
unmarshal-marshal c p out rest law (one_update u) e =
    let (b, tag, e1) = >>=-eq-ok (or_error (c.tag.encode 2)) _ e in
    let (first, second) = both_parts c.tag law.tag c.update 2 b out u rest (law.update u) tag e1 in
    rw (first, second) refl
unmarshal-marshal c p out rest law (one_remove r) e =
    let (b, tag, e1) = >>=-eq-ok (or_error (c.tag.encode 3)) _ e in
    let (first, second) = both_parts c.tag law.tag c.remove 3 b out r rest (law.remove r) tag e1 in
    rw (first, second) refl
