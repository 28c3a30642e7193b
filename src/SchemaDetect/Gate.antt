-- ===== src/SchemaDetect/Gate.antt =====
-- When the gate reports drift, and when it blocks.
use sagasmith.Common.{
  non_empty, ◌≡◌, refl, sym, Bool, true, false, not, List, [], ◌∷◌, ◌++◌, Str, In, inl, inr, ◌↔◌,
  arith, Bool-cases, Option-cases, true_not_false, not-eq-true, and-eq-true, ◌&&◌,
}
use sagasmith.SchemaDetect.Patterns.{Orm}
use sagasmith.SchemaDetect.{
  orm_of, add_orm, detect_loop, detect_schema_files, unpushed, check_schema_drift,
}
use sagasmith.SchemaDetect.Orms.{Missing, In-unpushed, detect_loop-none, detect_loop-some}

non_empty-append : (xs : List Str) (x : Str) → non_empty (xs ++ x ∷ []) ≡ true
non_empty-append [] x = refl
non_empty-append (y ∷ xs) x = refl

-- No file found means no ORM found.
orms_of_none :
    (fs found : List Str) (orms : List Orm)
    → (non_empty found ≡ false → orms ≡ [])
    → non_empty (detect_loop fs found orms).0 ≡ false
    → (detect_loop fs found orms).1 ≡ []
orms_of_none [] found orms h e = unfold detect_loop in h e
orms_of_none (f ∷ fs) found orms h e = elim (Option-cases (orm_of f)) [
  | inl q ↦
      rw (detect_loop-none f fs found orms q)
        (orms_of_none fs found orms h (rw (detect_loop-none f fs found orms q) at e))
  | inr (o, q) ↦ rw (detect_loop-some f fs found orms o q) (
      orms_of_none fs (found ++ f ∷ []) (add_orm orms o)
        (λ no_file. absurd (true_not_false (non_empty-append found f) no_file))
        (rw (detect_loop-some f fs found orms o q) at e))
]

non_empty-In : {A : Type 0} (xs : List A) → non_empty xs ≡ true → (x : A) × In x xs
non_empty-In [] h = absurd (ground arith)
non_empty-In (x ∷ xs) h = (x, inl refl)

In-non_empty : {A : Type 0} (xs : List A) (x : A) → In x xs → non_empty xs ≡ true
In-non_empty [] x h = absurd h
In-non_empty (y ∷ xs) x h = refl

empty_of_not : {A : Type 0} (xs : List A) → non_empty xs ≡ false → xs ≡ []
empty_of_not [] h = refl
empty_of_not (x ∷ xs) h = absurd (ground arith)

module _ (files : List Str) (log : Str) (skip : Bool) where
  abbrev os : List Orm
  os = unpushed log (detect_schema_files files).orms

  no_files-no_orms : (detect_schema_files files).detected ≡ false → os ≡ []
  unfolding detect_schema_files unpushed
  no_files-no_orms e = rw (orms_of_none files [] [] (λ h. refl) e)

  check_fields :
      ((check_schema_drift files log skip).unpushed_orms ≡ os)
      × ((check_schema_drift files log skip).drift_detected ≡ non_empty os)
      × ((check_schema_drift files log skip).blocking ≡ (non_empty os && not skip))
  unfolding check_schema_drift
  check_fields = elim (Bool-cases (detect_schema_files files).detected) [
    | inr no_file ↦ rw (no_file, no_files-no_orms no_file) (refl, refl, refl)
    | inl file ↦ elim (Bool-cases (non_empty os)) [
      | inl left ↦ rw (file, left) (refl, refl, refl)
      | inr all_pushed ↦ rw (file, all_pushed) (sym (empty_of_not os all_pushed), refl, refl)
    ]
  ]

  -- The unpushed ORMs of the report are those that some changed file is a schema file of, and for
  -- which the log holds no evidence of a push.
  pub unpushed_orms_iff :
      (o : Orm) → In o (check_schema_drift files log skip).unpushed_orms ↔ Missing files log o
  unpushed_orms_iff o =
      let (to, from) = In-unpushed files log o in
      let (u, d, b) = check_fields in (λ h. to (rw u at h), λ m. rw u (from m))

  -- The gate blocks exactly where the check is not skipped and some ORM has a changed schema file and
  -- no evidence of a push in the log; drift is reported exactly where there is such an ORM.
  pub blocking_iff :
      (((check_schema_drift files log skip).blocking ≡ true)
        ↔ (((o : Orm) × Missing files log o) × (skip ≡ false)))
      × (((check_schema_drift files log skip).drift_detected ≡ true)
          ↔ ((o : Orm) × Missing files log o))
  blocking_iff =
      let (u, d, b) = check_fields in
      (
        (
          λ h.
              let (n, s) = and-eq-true (non_empty os) (not skip) (rw b at h) in
              (missing n, not-eq-true skip s),
          λ (m, s). rw b (rw (found m, s) refl),
        ),
        (λ h. missing (rw d at h), λ m. rw d (found m)),
      )
    where
      missing : non_empty os ≡ true → (o : Orm) × Missing files log o
      missing n = let (o, i) = non_empty-In os n in (o, (In-unpushed files log o).0 i)

      found : ((o : Orm) × Missing files log o) → non_empty os ≡ true
      found (o, m) = In-non_empty os o ((In-unpushed files log o).1 m)
