-- ===== src/Prisma/Marked.antt =====
-- Tokens that are marked for good: what each kind of write to a table of tokens leaves marked.
use gracon_admin_service.Prelude.{
  String, Bool, true, some, ◌≡◌, ◌≢◌, ◌==◌, arith, Bool-cases, inl, inr, Option-cases,
}
use gracon_admin_service.Prisma.{Prisma, done}

module _ ⦃P : Prisma⦄ {Row : Type 0} (hash : Row → String) (mark : Row → Bool) (h : String) where
  -- Every stored row with this hash is marked.
  abbrev pub IsMarked : P.Table Row → Type 0
  IsMarked t = (j : String) (r : Row) → P.find_unique j t ≡ some r → hash r ≡ h → mark r ≡ true

  pub create-IsMarked :
      (row : Row) (t t' : P.Table Row) (id : String)
      → hash row ≢ h
      → P.create row t ≡ done (id, t')
      → IsMarked t
      → IsMarked t'
  create-IsMarked row t t' id other made old j r stored same = elim (Bool-cases (id == j)) [
    | inl here ↦
        (let law = P.find_unique-create row t t' id j made in
          let is : row ≡ r = ground (arith, law, here, stored) in absurd (other (rw is same)))
    | inr apart ↦
        (let law = P.find_unique-create row t t' id j made in
          old j r (ground (arith, law, apart, stored)) same)
  ]

  module _ (f : Row → Row) (keeps : (r : Row) → hash (f r) ≡ hash r)
      (marks : (r : Row) → mark (f r) ≡ true) where
    pub update-IsMarked :
        (id : String) (t t' : P.Table Row) → P.update id f t ≡ done t' → IsMarked t → IsMarked t'
    update-IsMarked id t t' made old j r stored same =
        let law = P.find_unique-update id f t t' j made in
        elim (Bool-cases (id == j)) [
          | inl here ↦ elim (Option-cases (P.find_unique j t)) [
            | inl missing ↦ absurd (ground (arith, law, here, stored, missing))
            | inr (q, was) ↦
                (let is : f q ≡ r = ground (arith, law, here, stored, was) in rw (← is) (marks q))
          ]
          | inr apart ↦ old j r (ground (arith, law, apart, stored)) same
        ]

    pub update_many-IsMarked :
        (p : String → Row → Bool) (t t' : P.Table Row)
        → P.update_many p f t ≡ done t'
        → IsMarked t
        → IsMarked t'
    update_many-IsMarked p t t' made old j r stored same =
        let law = P.find_unique-update_many p f t t' j made in
        elim (Option-cases (P.find_unique j t)) [
          | inl missing ↦ absurd (ground (arith, law, stored, missing))
          | inr (q, was) ↦ elim (Bool-cases (p j q)) [
            | inl here ↦
                (let is : f q ≡ r = ground (arith, law, here, stored, was) in rw (← is) (marks q))
            | inr apart ↦ old j r (ground (arith, law, apart, stored, was)) same
          ]
        ]

  pub delete_many-IsMarked :
      (p : String → Row → Bool) (t t' : P.Table Row)
      → P.delete_many p t ≡ done t'
      → IsMarked t
      → IsMarked t'
  delete_many-IsMarked p t t' made old j r stored same =
      old j r ((P.find_unique-delete_many p t t' j r made).0 stored).0 same
