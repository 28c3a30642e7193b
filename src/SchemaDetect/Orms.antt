-- ===== src/SchemaDetect/Orms.antt =====
-- Which ORMs the changed files and the log single out.
use sagasmith.Common.{
  ◌≡◌, refl, sym, ◌∙◌, ap, true, not, none, some, List, [], ◌∷◌, ◌++◌, any, Str, In, In-append,
  In-append_left, In-append_right, In-filter, filter-In, ◌⊎◌, inl, inr, ◌↔◌, arith, Bool-cases,
  Option-cases, some_inj, true_not_false, not_true, not-eq-true,
}
use sagasmith.Common.Regex.{Regex, full, test, Matches}
use sagasmith.Common.Regex.Laws.{Found, full_iff, test_iff}
use sagasmith.SchemaDetect.Patterns.{Orm, rank, Pattern, schema_patterns, orm_info}
use sagasmith.SchemaDetect.{
  to_slashes, first_orm, orm_of, orm_eq, has_orm, add_orm, detect_loop, detect_schema_files,
  has_push_evidence, unpushed,
}

-- The file is a schema file of the ORM: the first pattern that matches it is one of that ORM.
pub data IsSchemaFile (file : Str) : List Pattern → Orm → Type 0 where
  here :
      {o : Orm} {ps : List Pattern} (p : Pattern)
      → p.orm ≡ o
      → Matches p.pattern file
      → IsSchemaFile file (p ∷ ps) o
  later :
      {o : Orm} {ps : List Pattern} (p : Pattern)
      → ¬ Matches p.pattern file
      → IsSchemaFile file ps o
      → IsSchemaFile file (p ∷ ps) o

-- The log holds some text that is evidence of a push for the ORM.
abbrev pub Pushed : Str → Orm → Type 0
Pushed log o = (p : Regex) × In p (orm_info o).evidence_patterns × Found p log

-- Some changed file is a schema file of the ORM.
abbrev pub Changed : List Str → Orm → Type 0
Changed files o = (f : Str) × In f files × IsSchemaFile (to_slashes f) schema_patterns o

none_some : {o : Orm} → none ≡ some o → ⊥
none_some h = ground arith

orm_eq_refl : (a : Orm) → orm_eq a a ≡ true
orm_eq_refl a = ground arith

first_orm_sound :
    (ps : List Pattern) (file : Str) (o : Orm) → first_orm ps file ≡ some o → IsSchemaFile file ps o
unfolding first_orm
first_orm_sound [] file o h = absurd (ground arith)
first_orm_sound (p ∷ ps) file o h = elim (Bool-cases (full p.pattern file)) [
  | inl t ↦ here p (some_inj (rw t at h)) ((full_iff p.pattern file).0 t)
  | inr f ↦
      later p (λ m. true_not_false ((full_iff p.pattern file).1 m) f)
        (first_orm_sound ps file o (rw f at h))
]

first_orm_complete :
    {file : Str} {ps : List Pattern} {o : Orm} → IsSchemaFile file ps o → first_orm ps file ≡ some o
unfolding first_orm
first_orm_complete {file} (here p e m) = rw ((full_iff p.pattern file).1 m) (ap some e)
first_orm_complete {file} (later p no_match s) =
    rw (not_true (full p.pattern file) (λ t. no_match ((full_iff p.pattern file).0 t)))
      (first_orm_complete s)

pub orm_of_iff :
    (f : Str) (o : Orm) → (orm_of f ≡ some o) ↔ IsSchemaFile (to_slashes f) schema_patterns o
orm_of_iff f o = (
  unfold orm_of in first_orm_sound schema_patterns (to_slashes f) o,
  λ s. unfold orm_of in first_orm_complete s,
)

rank_injective : (a b : Orm) → rank a ≡ rank b → a ≡ b
rank_injective a b h = ground arith

orm_eq_iff : (a b : Orm) → (orm_eq a b ≡ true) ↔ (a ≡ b)
orm_eq_iff a b = (λ h. rank_injective a b (ground arith), λ e. rw e (orm_eq_refl b))

has_orm_sound : (ps : List Orm) (o : Orm) → has_orm ps o ≡ true → In o ps
unfolding has_orm
has_orm_sound [] o h = absurd (ground arith)
has_orm_sound (p ∷ ps) o h = elim (Bool-cases (orm_eq p o)) [
  | inl t ↦ inl ((orm_eq_iff p o).0 t)
  | inr f ↦ inr (has_orm_sound ps o (rw f at h))
]

In-add_orm : (ps : List Orm) (o q : Orm) → In q (add_orm ps o) ↔ (In q ps ⊎ (o ≡ q))
unfolding add_orm
In-add_orm ps o q = elim (Bool-cases (has_orm ps o)) [
  | inl t ↦ rw t (inl, λ h. elim h [ inl i ↦ i | inr e ↦ rw (← e) (has_orm_sound ps o t) ])
  | inr f ↦ rw f (
    λ h. elim (In-append q ps (o ∷ []) h) [
      | inl i ↦ inl i
      | inr (inl e) ↦ inr e
      | inr (inr no_more) ↦ absurd no_more
    ],
    λ h. elim h [
      | inl i ↦ In-append_left q ps (o ∷ []) i
      | inr e ↦ In-append_right q ps (o ∷ []) (inl e)
    ],
  )
]

-- Where an ORM of the loop's result comes from.
abbrev From : List Str → List Orm → Orm → Type 0
From fs orms o = In o orms ⊎ ((f : Str) × In f fs × (orm_of f ≡ some o))

From-cons :
    (f : Str) (fs : List Str) (orms : List Orm) (p o : Orm)
    → orm_of f ≡ some p
    → From fs (add_orm orms p) o ↔ From (f ∷ fs) orms o
From-cons f fs orms p o e = (
  λ h. elim h [
    | inl i ↦ elim ((In-add_orm orms p o).0 i) [
      | inl old ↦ inl old
      | inr same ↦ inr (f, inl refl, e ∙ ap some same)
    ]
    | inr (g, m, q) ↦ inr (g, inr m, q)
  ],
  λ h. elim h [
    | inl i ↦ inl ((In-add_orm orms p o).1 (inl i))
    | inr (g, inl same, q) ↦
        inl ((In-add_orm orms p o).1 (inr (some_inj (sym e ∙ (ap orm_of same ∙ q)))))
    | inr (g, inr m, q) ↦ inr (g, m, q)
  ],
)

From-skip :
    (f : Str) (fs : List Str) (orms : List Orm) (o : Orm)
    → orm_of f ≡ none
    → From fs orms o ↔ From (f ∷ fs) orms o
From-skip f fs orms o e = (
  λ h. elim h [ inl i ↦ inl i | inr (g, m, q) ↦ inr (g, inr m, q) ],
  λ h. elim h [
    | inl i ↦ inl i
    | inr (g, inl same, q) ↦ absurd (none_some (sym e ∙ (ap orm_of same ∙ q)))
    | inr (g, inr m, q) ↦ inr (g, m, q)
  ],
)

pub detect_loop-none :
    (f : Str) (fs found : List Str) (orms : List Orm)
    → orm_of f ≡ none
    → detect_loop (f ∷ fs) found orms ≡ detect_loop fs found orms
unfolding detect_loop
detect_loop-none f fs found orms e = ground arith

pub detect_loop-some :
    (f : Str) (fs found : List Str) (orms : List Orm) (o : Orm)
    → orm_of f ≡ some o
    → detect_loop (f ∷ fs) found orms ≡ detect_loop fs (found ++ f ∷ []) (add_orm orms o)
unfolding detect_loop
detect_loop-some f fs found orms o e = ground arith

In-detect_loop :
    (fs found : List Str) (orms : List Orm) (o : Orm)
    → In o (detect_loop fs found orms).1 ↔ From fs orms o
In-detect_loop [] found orms o =
    unfold detect_loop in (inl, λ h. elim h [ inl i ↦ i | inr (f, m, e) ↦ absurd m ])
In-detect_loop (f ∷ fs) found orms o = elim (Option-cases (orm_of f)) [
  | inl e ↦
      let (to, from) = In-detect_loop fs found orms o in
      let (a, b) = From-skip f fs orms o e in
      rw (detect_loop-none f fs found orms e) (λ h. a (to h), λ h. from (b h))
  | inr (p, e) ↦
      let (to, from) = In-detect_loop fs (found ++ f ∷ []) (add_orm orms p) o in
      let (a, b) = From-cons f fs orms p o e in
      rw (detect_loop-some f fs found orms p e) (λ h. a (to h), λ h. from (b h))
]

any-test_sound :
    (log : Str) (ps : List Regex)
    → any (λ p. test p log) ps ≡ true
    → (p : Regex) × In p ps × Found p log
any-test_sound log [] h = absurd (ground arith)
any-test_sound log (p ∷ ps) h = elim (Bool-cases (test p log)) [
  | inl t ↦ (p, inl refl, (test_iff p log).0 t)
  | inr f ↦ let (q, m, found) = any-test_sound log ps (rw f at h) in (q, inr m, found)
]

any-test_complete :
    (log : Str) (ps : List Regex) (p : Regex)
    → In p ps
    → Found p log
    → any (λ p. test p log) ps ≡ true
any-test_complete log [] p m found = absurd m
any-test_complete log (q ∷ ps) p (inl e) found =
    let t : test q log ≡ true = rw e ((test_iff p log).1 found) in rw t
any-test_complete log (q ∷ ps) p (inr m) found = ground (arith, any-test_complete log ps p m found)

has_push_evidence_iff : (log : Str) (o : Orm) → (has_push_evidence log o ≡ true) ↔ Pushed log o
has_push_evidence_iff log o =
    unfold has_push_evidence in
    (
      any-test_sound log (orm_info o).evidence_patterns,
      λ (p, m, found). any-test_complete log (orm_info o).evidence_patterns p m found,
    )

module _ (files : List Str) (log : Str) where
  In-orms : (o : Orm) → In o (detect_schema_files files).orms ↔ Changed files o
  unfolding detect_schema_files
  In-orms o =
      let (to, from) = In-detect_loop files [] [] o in
      (
        λ h. elim (to h) [
          | inl no_orm ↦ absurd no_orm
          | inr (f, m, e) ↦ (f, m, (orm_of_iff f o).0 e)
        ],
        λ (f, m, c). from (inr (f, m, (orm_of_iff f o).1 c)),
      )

  abbrev pub Missing : Orm → Type 0
  Missing o = Changed files o × ¬ Pushed log o

  pub In-unpushed : (o : Orm) → In o (unpushed log (detect_schema_files files).orms) ↔ Missing o
  unfolding unpushed
  In-unpushed o = (
    λ h.
        let (m, e) = In-filter _ o (detect_schema_files files).orms h in
        (
          (In-orms o).0 m,
          λ pushed. true_not_false ((has_push_evidence_iff log o).1 pushed) (not-eq-true _ e),
        ),
    λ (c, not_pushed).
        filter-In _ o (detect_schema_files files).orms ((In-orms o).1 c)
          (ap not (not_true _ (λ e. not_pushed ((has_push_evidence_iff log o).0 e)))),
  )
