-- ===== src/Ingest/Dossier/Reordered.antt =====
-- The seal of the files of a dossier and the order in which they are listed.
use mathlib.Core.Logic.{∥∥₁_elim}
use mathlib.Core.List.{Perm, Permᴰ}
use native.Mathlib.Nat.{ℕ_set}
use web_comunidad_solar.Prelude.{
  ◌≡◌, refl, sym, subst, ◌∙◌, ap, arith, true, false, Bool-cases, inl, inr, ◌⊎◌, List, [], ◌∷◌,
  ◌===◌, ===_refl, eq_of_===, text_lt,
}
use web_comunidad_solar.Prelude.Order.{text_lt_irrefl, text_lt_asymm, text_lt_connex, text_lt_trans}
use web_comunidad_solar.Ingest.Platform.{Platform}
use web_comunidad_solar.Ingest.Dossier.Files.{
  DossierCommitmentFile, insert_file, sort_files, has_equal_neighbours, sanitized_dossier_sha256,
}

abbrev Files : Type 0
Files = List DossierCommitmentFile

has_equal_neighbours-cons :
    (x : DossierCommitmentFile) (l : Files)
    → has_equal_neighbours l ≡ true
    → has_equal_neighbours (x ∷ l) ≡ true
has_equal_neighbours-cons x [] h = absurd (ground (arith, h))
has_equal_neighbours-cons x (y ∷ l) h = ground (arith, h)

-- Two neighbours with one path stay neighbours when a file is inserted.
has_equal_neighbours-insert :
    (x : DossierCommitmentFile) (l : Files)
    → has_equal_neighbours l ≡ true
    → has_equal_neighbours (insert_file x l) ≡ true
has_equal_neighbours-insert x [] h = absurd (ground (arith, h))
has_equal_neighbours-insert x (y ∷ []) h = absurd (ground (arith, h))
has_equal_neighbours-insert x (y ∷ z ∷ l) h = elim (Bool-cases (text_lt y.path x.path)) [
  | inl past ↦ elim (Bool-cases (y.path === z.path)) [
    | inl same ↦
        let e : y.path ≡ z.path = eq_of_=== y.path z.path same in
        let past_both : text_lt z.path x.path ≡ true = rw (sym e) past in
        ground (arith, past, past_both, same)
    | inr other ↦
        let tail = has_equal_neighbours-insert x (z ∷ l) (ground (arith, h, other)) in
        rw past (has_equal_neighbours-cons y (insert_file x (z ∷ l)) tail)
  ]
  | inr before ↦ rw before (has_equal_neighbours-cons x (y ∷ z ∷ l) h)
]

-- Two files with one path are neighbours after both are inserted.
has_equal_neighbours-twice :
    (x y : DossierCommitmentFile) (l : Files)
    → x.path ≡ y.path
    → has_equal_neighbours (insert_file x (insert_file y l)) ≡ true
has_equal_neighbours-twice x y [] e =
    let level : text_lt y.path x.path ≡ false = rw e (text_lt_irrefl y.path) in
    let same : (x.path === y.path) ≡ true = rw e (===_refl y.path) in ground (arith, level, same)
has_equal_neighbours-twice x y (z ∷ l) e = elim (Bool-cases (text_lt z.path y.path)) [
  | inl past ↦
      let past_both : text_lt z.path x.path ≡ true = rw e past in
      rw (past, past_both) (has_equal_neighbours-cons z _ (has_equal_neighbours-twice x y l e))
  | inr before ↦
      let level : text_lt y.path x.path ≡ false = rw e (text_lt_irrefl y.path) in
      let same : (x.path === y.path) ≡ true = rw e (===_refl y.path) in
      ground (arith, before, level, same)
]

text_lt_other :
    (x y : DossierCommitmentFile)
    → (x.path === y.path) ≡ false
    → text_lt x.path y.path ≡ false
    → text_lt y.path x.path ≡ true
text_lt_other x y h ge = elim (Bool-cases (text_lt y.path x.path)) [
  | inl lt ↦ lt
  | inr no_lt ↦
      let e = text_lt_connex x.path y.path ge no_lt in
      let same : (x.path === y.path) ≡ true = rw e (===_refl y.path) in
      absurd (ground (arith, h, same))
]

insert_file_comm :
    (x y : DossierCommitmentFile) (l : Files)
    → (x.path === y.path) ≡ false
    → insert_file x (insert_file y l) ≡ insert_file y (insert_file x l)
insert_file_comm x y [] h = elim (Bool-cases (text_lt x.path y.path)) [
  | inl lt ↦ ground (arith, lt, text_lt_asymm x.path y.path lt)
  | inr ge ↦ ground (arith, ge, text_lt_other x y h ge)
]
insert_file_comm x y (z ∷ l) h = elim (Bool-cases (text_lt z.path y.path)) [
  | inl below_y ↦ elim (Bool-cases (text_lt z.path x.path)) [
    | inl below_x ↦ ground (arith, below_y, below_x, insert_file_comm x y l h)
    | inr above_x ↦
        let lt = text_lt_trans z.path x.path y.path above_x below_y in
        ground (arith, below_y, above_x, lt)
  ]
  | inr above_y ↦ elim (Bool-cases (text_lt z.path x.path)) [
    | inl below_x ↦
        let lt = text_lt_trans z.path y.path x.path above_y below_x in
        ground (arith, above_y, below_x, lt)
    | inr above_x ↦ elim (Bool-cases (text_lt x.path y.path)) [
      | inl lt ↦ ground (arith, above_y, above_x, lt, text_lt_asymm x.path y.path lt)
      | inr ge ↦ ground (arith, above_y, above_x, ge, text_lt_other x y h ge)
    ]
  ]
]

-- Two listings that both have a path twice, or that are sorted alike.
abbrev SortsAlike : Files → Files → Type 0
SortsAlike l k = ((has_equal_neighbours l ≡ true) × (has_equal_neighbours k ≡ true)) ⊎ (l ≡ k)

SortsAlike-insert :
    (x : DossierCommitmentFile) (l k : Files)
    → SortsAlike l k
    → SortsAlike (insert_file x l) (insert_file x k)
SortsAlike-insert x l k (inl (left, right)) =
    inl (has_equal_neighbours-insert x l left, has_equal_neighbours-insert x k right)
SortsAlike-insert x l k (inr e) = inr (ap (insert_file x) e)

SortsAlike-swap :
    (x y : DossierCommitmentFile) (l : Files)
    → SortsAlike (insert_file x (insert_file y l)) (insert_file y (insert_file x l))
SortsAlike-swap x y l = elim (Bool-cases (x.path === y.path)) [
  | inl same ↦
      let e = eq_of_=== x.path y.path same in
      inl (has_equal_neighbours-twice x y l e, has_equal_neighbours-twice y x l (sym e))
  | inr other ↦ inr (insert_file_comm x y l other)
]

SortsAlike-trans : (l k m : Files) → SortsAlike l k → SortsAlike k m → SortsAlike l m
SortsAlike-trans l k m (inl (a, b)) (inl (c, d)) = inl (a, d)
SortsAlike-trans l k m (inl (a, b)) (inr e) = inl (a, rw (sym e) b)
SortsAlike-trans l k m (inr e) (inl (c, d)) = inl (rw e c, d)
SortsAlike-trans l k m (inr e) (inr f) = inr (e ∙ f)

SortsAlike-permuted : {xs ys : Files} → Permᴰ xs ys → SortsAlike (sort_files xs) (sort_files ys)
SortsAlike-permuted Permᴰ.nil = inr refl
SortsAlike-permuted (Permᴰ.cons {a = a} {b = b} {l₁ = l₁} {l₂ = l₂} e p) =
    subst (λ x. SortsAlike (sort_files (a ∷ l₁)) (sort_files (x ∷ l₂))) e
      (SortsAlike-insert a (sort_files l₁) (sort_files l₂) (SortsAlike-permuted p))
SortsAlike-permuted (Permᴰ.swap {a = a} {b = b} {l = l} e f) =
    rw (sym e, sym f) (SortsAlike-swap a b (sort_files l))
SortsAlike-permuted (Permᴰ.trans {l₁ = l₁} {l₂ = l₂} {l₃ = l₃} p q) =
    SortsAlike-trans (sort_files l₁) (sort_files l₂) (sort_files l₃) (SortsAlike-permuted p)
      (SortsAlike-permuted q)

-- Files that are listed in another order give the same seal, or are refused for the same reason.
pub sanitized_dossier_sha256-perm :
    (p : Platform) (xs ys : List DossierCommitmentFile)
    → Perm xs ys
    → sanitized_dossier_sha256 p xs ≡ sanitized_dossier_sha256 p ys
unfolding sanitized_dossier_sha256
sanitized_dossier_sha256-perm p xs ys permuted =
    ∥∥₁_elim permuted (hlevel ℕ_set) (λ d. from (SortsAlike-permuted d))
  where
    from :
        SortsAlike (sort_files xs) (sort_files ys)
        → sanitized_dossier_sha256 p xs ≡ sanitized_dossier_sha256 p ys
    from (inl (a, b)) = rw (a, b) refl
    from (inr e) = rw e refl
