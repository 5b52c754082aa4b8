-- ===== src/Messages/Content/RoundTrip.antt =====
-- `MarshalTLS` and `UnmarshalTLS` of message contents.
use go_mls.Base.{◌≡◌, refl, ◌++◌, length, Bytes, ReadsBack, ReadsBackAt, ok, >>=-eq-ok}
use go_mls.KeyPackage.{or_error}
use go_mls.Messages.RoundTrip.{both_parts}
use go_mls.Messages.Content.{
  MlsPlaintextContent, ContentCodecs, of_application, of_proposal, of_commit, content_type,
  write_content, read_content, marshal_content, unmarshal_content,
}

module _ {A P C : Type 0} where
  -- Each part of a content is read back.
  pub record FaithfulContent (k : ContentCodecs A P C) : Type 0 where
    pub tag : ReadsBack k.tag
    pub application : ReadsBack k.application
    pub proposal : ReadsBack k.proposal
    pub commit : ReadsBack k.commit

  -- A content with exactly one member.
  pub data OneContent : MlsPlaintextContent A P C → Type 0 where
    one_application : (a : A) → OneContent (of_application a)
    one_proposal : (p : P) → OneContent (of_proposal p)
    one_commit : (c : C) → OneContent (of_commit c)

  -- A content with exactly one member, and this one is read back.
  pub data Legible (k : ContentCodecs A P C) : MlsPlaintextContent A P C → Type 0 where
    legible_application : (a : A) → ReadsBackAt k.application a → Legible k (of_application a)
    legible_proposal : (p : P) → ReadsBackAt k.proposal p → Legible k (of_proposal p)
    legible_commit : (c : C) → ReadsBackAt k.commit c → Legible k (of_commit c)

  pub unmarshal-marshal_one :
      (k : ContentCodecs A P C) (c : MlsPlaintextContent A P C) (out rest : Bytes)
      → ReadsBack k.tag
      → Legible k c
      → marshal_content k c ≡ ok out
      → unmarshal_content k (out ++ rest) ≡ ok (c, length out)
  unfolding marshal_content unmarshal_content content_type write_content read_content
  unmarshal-marshal_one k c out rest tags (legible_application a reads) e =
      let (b, tag, e1) = >>=-eq-ok (or_error (k.tag.encode 1)) _ e in
      let (first, second) = both_parts k.tag tags k.application 1 b out a rest reads tag e1 in
      rw (first, second) refl
  unmarshal-marshal_one k c out rest tags (legible_proposal p reads) e =
      let (b, tag, e1) = >>=-eq-ok (or_error (k.tag.encode 2)) _ e in
      let (first, second) = both_parts k.tag tags k.proposal 2 b out p rest reads tag e1 in
      rw (first, second) refl
  unmarshal-marshal_one k c out rest tags (legible_commit d reads) e =
      let (b, tag, e1) = >>=-eq-ok (or_error (k.tag.encode 3)) _ e in
      let (first, second) = both_parts k.tag tags k.commit 3 b out d rest reads tag e1 in
      rw (first, second) refl

  FaithfulContent-Legible :
      (k : ContentCodecs A P C) {c : MlsPlaintextContent A P C}
      → FaithfulContent k
      → OneContent c
      → Legible k c
  FaithfulContent-Legible k law (one_application a) = legible_application a (law.application a)
  FaithfulContent-Legible k law (one_proposal p) = legible_proposal p (law.proposal p)
  FaithfulContent-Legible k law (one_commit c) = legible_commit c (law.commit c)

  -- Where the parts are read back, a content with exactly one member is read back from what was
  -- written of it, with any bytes behind, and as many bytes are read as were written.
  pub unmarshal-marshal_content :
      (k : ContentCodecs A P C) (c : MlsPlaintextContent A P C) (out rest : Bytes)
      → FaithfulContent k
      → OneContent c
      → marshal_content k c ≡ ok out
      → unmarshal_content k (out ++ rest) ≡ ok (c, length out)
  unmarshal-marshal_content k c out rest law one e =
      unmarshal-marshal_one k c out rest law.tag (FaithfulContent-Legible k law one) e
