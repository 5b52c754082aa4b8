-- ===== src/Credential/Issuers.antt =====
-- Which trusted certificate `Verify` takes for the issuer of another: what the maps of its pool hold.
use go_mls.Base.{
  ◌≡◌, ◌≢◌, ◌⊎◌, refl, sym, ◌∙◌, ap, subst, arith, inl, inr, true, false, Bool-cases, Option, none,
  some, List, [], ◌∷◌, Bytes, bytes_eq, bytes_eq→eq, bytes_eq_refl, if◌then◌else◌,
}
use mathlib.Core.Option.{some-injective}
use go_mls.Credential.{
  Certificate, X509, CertPool, find_key, is_given, add_trusted, new_cert_pool, parent_in,
}

-- No certificate of the list is such a one.
pub data Lacks (P : Certificate → Type 0) : List Certificate → Type 0 where
  nothing : Lacks P []
  other : {c : Certificate} {cs : List Certificate} → ¬ P c → Lacks P cs → Lacks P (c ∷ cs)

-- The last certificate of the list that is such a one.
pub data Latest (P : Certificate → Type 0) : List Certificate → Certificate → Type 0 where
  here : {c : Certificate} {cs : List Certificate} → P c → Lacks P cs → Latest P (c ∷ cs) c
  there : {c t : Certificate} {cs : List Certificate} → Latest P cs t → Latest P (c ∷ cs) t

-- The certificate that another names as its issuer: by the key identifier if it gives one that some
-- trusted certificate has, and otherwise by the issuer's name. Of several the last one counts.
pub data Issuer (x : X509) (trusted : List Certificate) (c t : Certificate) : Type 0 where
  by_key :
      x.authority_key_id c ≢ []
      → Latest (λ d. x.subject_key_id d ≡ x.authority_key_id c) trusted t
      → Issuer x trusted c t
  by_name :
      (x.authority_key_id c ≡ []) ⊎ Lacks (λ d. x.subject_key_id d ≡ x.authority_key_id c) trusted
      → Latest (λ d. x.raw_subject d ≡ x.raw_issuer c) trusted t
      → Issuer x trusted c t

Latest_absurd :
    {P : Certificate → Type 0} {cs : List Certificate} {t : Certificate}
    → Lacks P cs
    → ¬ Latest P cs t
Latest_absurd nothing l = elim l [ ]
Latest_absurd (other differs _) (here so _) = differs so
Latest_absurd (other _ rest) (there l) = Latest_absurd rest l

Latest_unique :
    {P : Certificate → Type 0} {cs : List Certificate} {t u : Certificate}
    → Latest P cs t
    → Latest P cs u
    → t ≡ u
Latest_unique (here _ _) (here _ _) = refl
Latest_unique (here _ lacks) (there l) = absurd (Latest_absurd lacks l)
Latest_unique (there l) (here _ lacks) = absurd (Latest_absurd lacks l)
Latest_unique (there l) (there k) = Latest_unique l k

-- What a look-up gives after the certificates were added: the last one, or what it gave before.
data Found (P : Certificate → Type 0) (cs : List Certificate) (before out : Option Certificate)
    : Type 0 where
  hit : (t : Certificate) → Latest P cs t → out ≡ some t → Found P cs before out
  miss : Lacks P cs → out ≡ before → Found P cs before out

Found-∷ :
    (P : Certificate → Type 0) (c : Certificate) (cs : List Certificate)
    (before middle out : Option Certificate)
    → (P c × (middle ≡ some c)) ⊎ (¬ P c × (middle ≡ before))
    → Found P cs middle out
    → Found P (c ∷ cs) before out
Found-∷ P c cs before middle out _ (hit t l e) = hit t (there l) e
Found-∷ P c cs before middle out (inl (is_so, m)) (miss lacks e) = hit c (here is_so lacks) (e ∙ m)
Found-∷ P c cs before middle out (inr (not_so, m)) (miss lacks e) =
    miss (other not_so lacks) (e ∙ m)

differs_from : {j k : Bytes} → j ≡ k → ¬ (bytes_eq j k ≡ false)
differs_from {j} {k} e differs =
    let same : bytes_eq j k ≡ true = subst (λ y. bytes_eq j y ≡ true) e (bytes_eq_refl j) in
    ground arith

find_key-∷ :
    (k j : Bytes) (c : Certificate) (m : List (Bytes × Certificate))
    → ((j ≡ k) × (find_key k ((j, c) ∷ m) ≡ some c))
      ⊎ (¬ (j ≡ k) × (find_key k ((j, c) ∷ m) ≡ find_key k m))
unfolding find_key
find_key-∷ k j c m = elim (Bool-cases (bytes_eq j k)) [
  | inl same ↦ inl (bytes_eq→eq j k same, rw same refl)
  | inr differs ↦ inr (λ e. differs_from e differs, rw differs refl)
]

module _ (x : X509) where
  -- One round of the loop of `newCertPool`.
  abbrev with_trusted : Certificate → CertPool → CertPool
  with_trusted c pool = record {
    by_key_id =
        if is_given (x.subject_key_id c)
        then (x.subject_key_id c, c) ∷ pool.by_key_id
        else pool.by_key_id;
    by_name = (x.raw_subject c, c) ∷ pool.by_name;
  }

  by_name-add_trusted :
      (k : Bytes) (pool : CertPool) (cs : List Certificate)
      → Found
          (λ d. x.raw_subject d ≡ k)
          cs
          (find_key k pool.by_name)
          (find_key k (add_trusted x pool cs).by_name)
  unfolding add_trusted
  by_name-add_trusted k pool [] = miss nothing refl
  by_name-add_trusted k pool (c ∷ cs) =
      Found-∷ (λ d. x.raw_subject d ≡ k) c cs _ _ _ (find_key-∷ k (x.raw_subject c) c pool.by_name)
        (by_name-add_trusted k (with_trusted c pool) cs)

  given_key :
      (k : Bytes) (c : Certificate) (m : List (Bytes × Certificate))
      → k ≢ []
      → ((x.subject_key_id c ≡ k)
          × (find_key k (if is_given (x.subject_key_id c) then (x.subject_key_id c, c) ∷ m else m)
              ≡ some c))
        ⊎ (¬ (x.subject_key_id c ≡ k)
            × (find_key k (if is_given (x.subject_key_id c) then (x.subject_key_id c, c) ∷ m else m)
                ≡ find_key k m))
  unfolding is_given
  given_key k c m given = by_id (x.subject_key_id c)
    where
      by_id :
          (j : Bytes)
          → ((j ≡ k) × (find_key k (if is_given j then (j, c) ∷ m else m) ≡ some c))
            ⊎ (¬ (j ≡ k) × (find_key k (if is_given j then (j, c) ∷ m else m) ≡ find_key k m))
      by_id [] = inr (λ e. given (sym e), refl)
      by_id (b ∷ j) = find_key-∷ k (b ∷ j) c m

  by_key-add_trusted :
      (k : Bytes) (pool : CertPool) (cs : List Certificate)
      → k ≢ []
      → Found
          (λ d. x.subject_key_id d ≡ k)
          cs
          (find_key k pool.by_key_id)
          (find_key k (add_trusted x pool cs).by_key_id)
  unfolding add_trusted
  by_key-add_trusted k pool [] given = miss nothing refl
  by_key-add_trusted k pool (c ∷ cs) given =
      Found-∷ (λ d. x.subject_key_id d ≡ k) c cs _ _ _ (given_key k c pool.by_key_id given)
        (by_key-add_trusted k (with_trusted c pool) cs given)

  module _ (trusted : List Certificate) (c : Certificate) where
    -- The two look-ups that `parent` makes.
    by_its_name :
        Found
          (λ d. x.raw_subject d ≡ x.raw_issuer c)
          trusted
          none
          (find_key (x.raw_issuer c) (new_cert_pool x trusted).by_name)
    unfolding new_cert_pool find_key
    by_its_name =
        by_name-add_trusted (x.raw_issuer c) (record { by_key_id = []; by_name = [] }) trusted

    by_its_key :
        x.authority_key_id c ≢ []
        → Found
            (λ d. x.subject_key_id d ≡ x.authority_key_id c)
            trusted
            none
            (find_key (x.authority_key_id c) (new_cert_pool x trusted).by_key_id)
    unfolding new_cert_pool find_key
    by_its_key given =
        by_key-add_trusted (x.authority_key_id c) (record { by_key_id = []; by_name = [] }) trusted
          given

    abbrev of_name : Option Certificate
    of_name = find_key (x.raw_issuer c) (new_cert_pool x trusted).by_name

    -- Which of its two maps `parent` answers from.
    data Route (out : Option Certificate) : Type 0 where
      through_key :
          (t : Certificate)
          → x.authority_key_id c ≢ []
          → Latest (λ d. x.subject_key_id d ≡ x.authority_key_id c) trusted t
          → out ≡ some t
          → Route out
      through_name :
          (x.authority_key_id c ≡ [])
            ⊎ Lacks (λ d. x.subject_key_id d ≡ x.authority_key_id c) trusted
          → out ≡ of_name
          → Route out

    parent_in-Route : Route (parent_in x (new_cert_pool x trusted) c)
    unfolding parent_in is_given
    parent_in-Route = by_id (x.authority_key_id c) refl
      where
        by_id :
            (k : Bytes) → x.authority_key_id c ≡ k → Route (parent_in x (new_cert_pool x trusted) c)
        by_id [] e = through_name (inl e) (rw e refl)
        by_id (b ∷ k) e =
            let given : x.authority_key_id c ≢ [] = λ none_given. ground (arith, e, none_given) in
            elim (by_its_key given) [
              | hit t l f ↦ through_key t given l (
                  let f' : find_key (b ∷ k) (new_cert_pool x trusted).by_key_id ≡ some t =
                    subst (λ y. find_key y (new_cert_pool x trusted).by_key_id ≡ some t) e f in
                  rw (e, f') refl)
              | miss lacks f ↦ through_name (inr lacks) (
                  let f' : find_key (b ∷ k) (new_cert_pool x trusted).by_key_id ≡ none =
                    subst (λ y. find_key y (new_cert_pool x trusted).by_key_id ≡ none) e f in
                  rw (e, f') refl)
            ]

    pub parent_in-Issuer :
        (t : Certificate) → parent_in x (new_cert_pool x trusted) c ≡ some t → Issuer x trusted c t
    parent_in-Issuer t e = elim parent_in-Route [
      | through_key u given l f ↦ by_key given (
          subst (λ y. Latest (λ d. x.subject_key_id d ≡ x.authority_key_id c) trusted y)
            (some-injective _ _ (sym f ∙ e)) l)
      | through_name without f ↦ elim by_its_name [
        | hit u l g ↦ by_name without (
            subst (λ y. Latest (λ d. x.raw_subject d ≡ x.raw_issuer c) trusted y)
              (some-injective _ _ (sym (f ∙ g) ∙ e)) l)
        | miss _ g ↦ cc
      ]
    ]

    pub Issuer-parent_in :
        {t : Certificate} → Issuer x trusted c t → parent_in x (new_cert_pool x trusted) c ≡ some t
    Issuer-parent_in {t} i = elim parent_in-Route [
      | through_key u given l f ↦ elim i [
        | by_key _ k ↦ f ∙ ap some (Latest_unique l k)
        | by_name (inl nothing_given) _ ↦ absurd (given nothing_given)
        | by_name (inr lacks) _ ↦ absurd (Latest_absurd lacks l)
      ]
      | through_name without f ↦ elim i [
        | by_key given k ↦ elim without [
          | inl nothing_given ↦ absurd (given nothing_given)
          | inr lacks ↦ absurd (Latest_absurd lacks k)
        ]
        | by_name _ k ↦ elim by_its_name [
          | hit u l g ↦ f ∙ g ∙ ap some (Latest_unique l k)
          | miss lacks _ ↦ absurd (Latest_absurd lacks k)
        ]
      ]
    ]
