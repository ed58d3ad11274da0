-- ===== src/Manganafer/Quote/Best.antt =====
-- The ranking of the candidates for a quote and the one that is answered.
use web_comunidad_solar.Prelude.{
  ◌≡◌, refl, arith, true, false, Bool-cases, inl, inr, List, [], ◌∷◌, codes, All, Some,
}
use web_comunidad_solar.Json.{boolean}
use web_comunidad_solar.Manganafer.Quote.Numbers.{Arithmetic}
use web_comunidad_solar.Manganafer.Quote.Config.{ManganaferQuoteConfig}
use web_comunidad_solar.Manganafer.Quote.Candidate.{
  QuoteCandidate, is_positive, ranks_after, insert_candidate, rank,
}
use web_comunidad_solar.Manganafer.Quote.Handler.{QuoteRuntime, answer_best, verdict, estimate_json}

-- The comparison of numbers is that of a total order, as it is on finite numbers.
pub record IsOrder {F : Type 0} (a : Arithmetic F) : Type 0 where
  pub trans : (x y z : F) → a.less x y ≡ true → a.less y z ≡ true → a.less x z ≡ true
  pub asymm : (x y : F) → a.less x y ≡ true → a.less y x ≡ false
  pub cotrans : (x y z : F) → a.less x y ≡ false → a.less x z ≡ true → a.less y z ≡ true

module _ {F : Type 0} (a : Arithmetic F) (o : IsOrder a) where
  abbrev zero_of : F
  zero_of = a.literal (codes "0")

  -- The comparison of the sort is that of the yearly savings.
  ranks_after_lem :
      (x y : QuoteCandidate F) → ranks_after a x y ≡ a.less x.annual_saving y.annual_saving
  unfolding ranks_after is_positive
  ranks_after_lem x y = elim (Bool-cases (a.less zero_of x.annual_saving)) [
    | inl gains ↦ elim (Bool-cases (a.less x.annual_saving y.annual_saving)) [
      | inl lt ↦ ground (arith, gains, lt, o.trans zero_of x.annual_saving y.annual_saving gains lt)
      | inr ge ↦ ground (arith, gains, ge)
    ]
    | inr loses ↦ elim (Bool-cases (a.less zero_of y.annual_saving)) [
      | inl gains ↦
          ground
            (arith, loses, gains, o.cotrans zero_of x.annual_saving y.annual_saving loses gains)
      | inr both ↦ ground (arith, loses, both)
    ]
  ]

  -- No candidate of a list saves more than this one.
  abbrev pub Tops : QuoteCandidate F → List (QuoteCandidate F) → Type 0
  Tops best cs = All (λ c. a.less best.annual_saving c.annual_saving ≡ false) cs

  not_less_trans : (x y z : F) → a.less x y ≡ false → a.less y z ≡ false → a.less x z ≡ false
  not_less_trans x y z h k = elim (Bool-cases (a.less x z)) [
    | inl lt ↦ absurd (ground (arith, k, o.cotrans x y z h lt))
    | inr ge ↦ ge
  ]

  Tops-below :
      (x y : QuoteCandidate F) (cs : List (QuoteCandidate F))
      → a.less x.annual_saving y.annual_saving ≡ false
      → Tops y cs
      → Tops x cs
  Tops-below x y [] h t = tt
  Tops-below x y (c ∷ cs) h (k, t) =
      (not_less_trans x.annual_saving y.annual_saving c.annual_saving h k, Tops-below x y cs h t)

  -- What the head of a ranked list is among the candidates that were ranked.
  pub record IsBest (best : QuoteCandidate F) (cs : List (QuoteCandidate F)) : Type 0 where
    pub tops : Tops best cs
    pub among : Some (λ c. c ≡ best) cs

  less_irrefl : (x : F) → a.less x x ≡ false
  less_irrefl x = elim (Bool-cases (a.less x x)) [
    | inl lt ↦ absurd (ground (arith, lt, o.asymm x x lt))
    | inr ge ↦ ge
  ]

  abbrev Ranked : QuoteCandidate F → List (QuoteCandidate F) → Type 0
  Ranked x xs =
      (best : QuoteCandidate F) × (others : List (QuoteCandidate F)) × (rank a (x ∷ xs)
        ≡ best ∷ others)
      × IsBest best (x ∷ xs)

  Ranked-cons :
      (x y : QuoteCandidate F) (xs ys : List (QuoteCandidate F))
      → rank a xs ≡ y ∷ ys
      → IsBest y xs
      → Ranked x xs
  unfolding rank insert_candidate
  Ranked-cons x y xs ys e b = elim (Bool-cases (a.less x.annual_saving y.annual_saving)) [
    | inl lt ↦ (
      y,
      insert_candidate a x ys,
      ground (arith, e, ranks_after_lem x y, lt),
      record { tops = (o.asymm x.annual_saving y.annual_saving lt, b.tops); among = inr b.among },
    )
    | inr ge ↦ (
      x,
      y ∷ ys,
      ground (arith, e, ranks_after_lem x y, ge),
      record {
        tops = (less_irrefl x.annual_saving, Tops-below x y xs ge b.tops);
        among = inl refl;
      },
    )
  ]

  rank-Ranked : (x : QuoteCandidate F) (xs : List (QuoteCandidate F)) → Ranked x xs
  unfolding rank insert_candidate
  rank-Ranked x [] =
      (x, [], refl, record { tops = (less_irrefl x.annual_saving, tt); among = inl refl })
  rank-Ranked x (y ∷ xs) =
      let (best, others, e, b) = rank-Ranked y xs in Ranked-cons x best (y ∷ xs) others e b

  Tops-gains :
      (best : QuoteCandidate F) (cs : List (QuoteCandidate F))
      → Tops best cs
      → Some (λ c. is_positive a c ≡ true) cs
      → is_positive a best ≡ true
  unfolding is_positive
  Tops-gains best [] t g = absurd g
  Tops-gains best (c ∷ cs) (ge, t) (inl gains) =
      elim (Bool-cases (a.less zero_of best.annual_saving)) [
        | inl lt ↦ lt
        | inr loses ↦
            absurd
              (ground (arith, ge, o.cotrans zero_of best.annual_saving c.annual_saving loses gains))
      ]
  Tops-gains best (c ∷ cs) (ge, t) (inr more) = Tops-gains best cs t more

module _ {F : Type 0} (r : QuoteRuntime F) (o : IsOrder r.arithmetic) where
  -- Where the comparison of numbers is a total order and some candidate saves money, the answer is the
  -- estimate of one of the candidates, which saves money and which no candidate saves more than.
  pub answer_best-IsBest :
      (config : ManganaferQuoteConfig F) (distance : F) (cs : List (QuoteCandidate F))
      → Some (λ c. is_positive r.arithmetic c ≡ true) cs
      → (best : QuoteCandidate F) × IsBest r.arithmetic o best cs
        × (is_positive r.arithmetic best ≡ true)
        × (answer_best r config distance (rank r.arithmetic cs)
            ≡ verdict r
                ((codes "eligible", boolean true) ∷ (codes "calculable", boolean true) ∷ [])
                distance
                ((codes "estimate", estimate_json r best config) ∷ []))
  unfolding answer_best
  answer_best-IsBest config distance [] g = absurd g
  answer_best-IsBest config distance (c ∷ cs) g =
      let (best, others, e, b) = rank-Ranked r.arithmetic o c cs in
      let gains = Tops-gains r.arithmetic o best (c ∷ cs) b.tops g in
      (best, b, gains, rw (e, gains) refl)
