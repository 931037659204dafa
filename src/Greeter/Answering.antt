-- ===== src/Greeter/Answering.antt =====
-- example/greeter/service/main.go, `Greeter`: every name is answered, in order.
use vice.Base.{
  ◌≡◌, refl, ap, subst, subst₂, sym, ◌∙◌, true, List, [], ◌∷◌, ◌++◌, map, map-append, some, Bytes,
  arith, concat_map, append_assoc, append-nil, >>=-eq-some,
}
use mathlib.Core.Option.{some-injective}
use vice.Transport.{Err}
use vice.Greeter.{
  Phase, selecting, greeting, finished, Greeter, new_greeter, Event, ctx_ends, case_done, case_err,
  case_name, greetings_takes, greet, step, run,
}

abbrev pub heard_by : {C : Type 0} → Event C → List Bytes
heard_by (case_name name) = name ∷ []
heard_by _ = []

abbrev pub errs_by : {C : Type 0} → Event C → List (Err C)
errs_by (case_err e) = e ∷ []
errs_by _ = []

-- The greeting that is on its way.
abbrev pub waiting : Phase → List Bytes
waiting selecting = []
waiting (greeting g) = g ∷ []
waiting finished = []

module _ {C : Type 0} where
  -- The loop has heard these names and logged these errors.
  pub record Answers (s : Greeter C) (names : List Bytes) (errs : List (Err C)) : Type 0 where
    pub answered : s.said ++ waiting s.phase ≡ map greet names
    pub heard : s.heard ≡ names
    pub logged : s.logged ≡ errs
    pub on_time : s.phase ≡ finished → s.ctx_done ≡ true

  step-Answers :
      (s t : Greeter C) (e : Event C) (p : Phase) (names : List Bytes) (errs : List (Err C))
      → s.phase ≡ p
      → Answers s names errs
      → step s e ≡ some t
      → Answers t (names ++ heard_by e) (errs ++ errs_by e)
  unfolding step
  step-Answers s t ctx_ends p names errs now k h =
      let u : Greeter C = record s { ctx_done = true } in
      let same : u ≡ t = ground (arith, h, now) in
      rw (append-nil names, append-nil errs)
        (subst (λ v. Answers v names errs) same
          (record {
            answered = k.answered;
            heard = k.heard;
            logged = k.logged;
            on_time = λ q. refl;
          }))
  step-Answers s t case_done selecting names errs now k h =
      let u : Greeter C = record s { phase = finished } in
      let same : u ≡ t = ground (arith, h, now) in
      rw (append-nil names, append-nil errs)
        (subst (λ v. Answers v names errs) same
          (record {
            answered = subst (λ q. s.said ++ waiting q ≡ map greet names) now k.answered;
            heard = k.heard;
            logged = k.logged;
            on_time = λ q. ground (arith, h, now);
          }))
  step-Answers s t (case_err e) selecting names errs now k h =
      let u : Greeter C = record s { logged = s.logged ++ (e ∷ []) } in
      let same : u ≡ t = ground (arith, h, now) in
      rw (append-nil names) (
        subst (λ v. Answers v names (errs ++ (e ∷ []))) same
          (record {
            answered = k.answered;
            heard = k.heard;
            logged = ap (λ l. l ++ (e ∷ [])) k.logged;
            on_time = k.on_time;
          }))
  step-Answers s t (case_name name) selecting names errs now k h =
      let u : Greeter C = record s {
        heard = s.heard ++ (name ∷ []);
        phase = greeting (greet name);
      } in
      let same : u ≡ t = ground (arith, h, now) in
      rw (append-nil errs) (
        subst (λ v. Answers v (names ++ (name ∷ [])) errs) same
          (record {
            answered =
                ap (λ l. l ++ (greet name ∷ []))
                  (sym (append-nil s.said)
                    ∙ subst (λ q. s.said ++ waiting q ≡ map greet names) now k.answered)
                ∙ sym (map-append greet names (name ∷ []));
            heard = ap (λ l. l ++ (name ∷ [])) k.heard;
            logged = k.logged;
            on_time = λ q. absurd cc;
          }))
  step-Answers s t greetings_takes (greeting g) names errs now k h =
      let u : Greeter C = record s { phase = selecting; said = s.said ++ (g ∷ []) } in
      let same : u ≡ t = ground (arith, h, now) in
      rw (append-nil names, append-nil errs)
        (subst (λ v. Answers v names errs) same
          (record {
            answered =
                append-nil _ ∙ subst (λ q. s.said ++ waiting q ≡ map greet names) now k.answered;
            heard = k.heard;
            logged = k.logged;
            on_time = λ q. absurd cc;
          }))
  step-Answers s t case_done (greeting g) names errs now k h = absurd (ground arith)
  step-Answers s t case_done finished names errs now k h = absurd (ground arith)
  step-Answers s t (case_err e) (greeting g) names errs now k h = absurd (ground arith)
  step-Answers s t (case_err e) finished names errs now k h = absurd (ground arith)
  step-Answers s t (case_name name) (greeting g) names errs now k h = absurd (ground arith)
  step-Answers s t (case_name name) finished names errs now k h = absurd (ground arith)
  step-Answers s t greetings_takes selecting names errs now k h = absurd (ground arith)
  step-Answers s t greetings_takes finished names errs now k h = absurd (ground arith)

  run_from-Answers :
      (s t : Greeter C) (es : List (Event C)) (names : List Bytes) (errs : List (Err C))
      → Answers s names errs
      → run s es ≡ some t
      → Answers t (names ++ concat_map heard_by es) (errs ++ concat_map errs_by es)
  unfolding run
  run_from-Answers s t [] names errs k h =
      rw (append-nil names, append-nil errs)
        (subst (λ u. Answers u names errs) (some-injective _ _ h) k)
  run_from-Answers s t (e ∷ es) names errs k h =
      let (u, now, later) = >>=-eq-some (step s e) _ h in
      subst₂ (Answers t) (append_assoc names (heard_by e) _) (append_assoc errs (errs_by e) _) (
        run_from-Answers u t es (names ++ heard_by e) (errs ++ errs_by e)
          (step-Answers s u e s.phase names errs refl k now) later)

  -- In every interleaving the greetings that the channel has taken, then the one on its way, greet
  -- the names received, each once and in order; every error received is logged; and the loop returns
  -- only after the context is done, with no greeting on its way.
  pub run-Answers :
      (t : Greeter C) (es : List (Event C))
      → run new_greeter es ≡ some t
      → Answers t (concat_map heard_by es) (concat_map errs_by es)
  unfolding new_greeter
  run-Answers t es h =
      run_from-Answers new_greeter t es [] []
        (record { answered = refl; heard = refl; logged = refl; on_time = λ q. absurd cc }) h
